-- ===== src/Fixtures/Store.antt =====
-- What cernopendata/modules/fixtures/cli.py calls of Invenio and the database, and the documented
-- behaviour of these calls.
use cernopendata_portal.Base.{
  String, ◌≡◌, Bool, true, false, Option, none, some, ◌==◌, string_eq, nat_eq, ℕ, ◌&&◌,
  if◌then◌else◌,
}
use cernopendata_portal.Base.Result.{Exn, foreign, Result, ok}
use cernopendata_portal.Json.{Fields}

-- `PIDDoesNotExistError` and `NoResultFound`.
abbrev pub pid_missing : Exn
pid_missing = foreign "PIDDoesNotExistError"

abbrev pub no_result : Exn
no_result = foreign "NoResultFound"

-- A persistent identifier: its value and the object that it stands for.
pub record Pid : Type 0 where
  pub pid_value : String
  pub object_uuid : ℕ

-- The database session. `get_pid` gives the object of an identifier, by its type and value, and
-- `get_record` the content of an object; `create` and `save` check the content against its schema. A UUID is a number.
pub record Store (W : Type 0) : Type 0 where
  pub new_uuid : W → ℕ
  pub get_pid : String → String → W → Option ℕ
  pub mint : String → String → ℕ → W → Result W
  pub drop_pid : String → String → W → W
  pub get_record : ℕ → W → Option Fields
  pub create : ℕ → Fields → W → Result W
  pub save : ℕ → Fields → W → Result W
  pub remove : ℕ → W → W
  pub commit : W → Result W
  pub index : ℕ → Fields → W → Result W

module _ {W : Type 0} (store : Store W) where
  -- The identifiers, and the contents, are as before but for one.
  abbrev pub SetsPid : String → String → Option ℕ → W → W → Type 0
  SetsPid t v o w w' =
      (s j : String) → store.get_pid s j w' ≡ (if s == t && j == v then o else store.get_pid s j w)

  abbrev pub SetsRecord : ℕ → Option Fields → W → W → Type 0
  SetsRecord u o w w' =
      (x : ℕ) → store.get_record x w' ≡ (if x == u then o else store.get_record x w)

  abbrev pub KeepsPids : W → W → Type 0
  KeepsPids w w' = (s j : String) → store.get_pid s j w' ≡ store.get_pid s j w

  abbrev pub KeepsRecords : W → W → Type 0
  KeepsRecords w w' = (x : ℕ) → store.get_record x w' ≡ store.get_record x w

  -- Each call returns, unless the value is taken or the content is not `valid`, and does what it is
  -- documented to do. No identifier stands for a new UUID.
  pub record IsStore (valid : Fields → Bool) : Type 0 where
    pub fresh :
        (t v : String) (u : ℕ) (w : W)
        → store.get_pid t v w ≡ some u
        → (u == store.new_uuid w) ≡ false
    pub mints :
        (t v : String) (u : ℕ) (w : W)
        → store.get_pid t v w ≡ none
        → (w' : W) × (store.mint t v u w ≡ ok w') × SetsPid t v (some u) w w' × KeepsRecords w w'
    pub drops :
        (t v : String) (w : W)
        → SetsPid t v none w (store.drop_pid t v w) × KeepsRecords w (store.drop_pid t v w)
    pub creates :
        (u : ℕ) (d : Fields) (w : W)
        → valid d ≡ true
        → (w' : W) × (store.create u d w ≡ ok w') × KeepsPids w w' × SetsRecord u (some d) w w'
    pub saves :
        (u : ℕ) (d : Fields) (w : W)
        → valid d ≡ true
        → (w' : W) × (store.save u d w ≡ ok w') × KeepsPids w w' × SetsRecord u (some d) w w'
    pub removes :
        (u : ℕ) (w : W) → KeepsPids w (store.remove u w) × SetsRecord u none w (store.remove u w)
    pub commits : (w : W) → (w' : W) × (store.commit w ≡ ok w') × KeepsPids w w' × KeepsRecords w w'
    pub indexes :
        (u : ℕ) (d : Fields) (w : W)
        → (w' : W) × (store.index u d w ≡ ok w') × KeepsPids w w' × KeepsRecords w w'
