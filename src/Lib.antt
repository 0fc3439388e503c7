-- ===== src/Lib.antt =====
-- Verification of the curation of releases in the CERN Open Data portal.
--
-- The portal publishes records and documents of physics experiments. Curators prepare them in
-- releases (cernopendata/modules/releases): a release is a row of the database with a list of
-- records, a list of documents, the errors of its validations, and a status that goes from DRAFT
-- over READY, STAGING, STAGED and PUBLISHING to PUBLISHED. Request handlers (views.py) check who
-- asks and in which status the release is, lock the row by a change of status, and call the
-- operations of `class Release` (api.py); two background tasks (tasks.py) stage and publish. The
-- validations (validations/) are classes with a check and, often, a fix.
--
-- Which file models which part, with the names of the source kept:
--   Base, Base/*        shared helpers; Base/Result is a Python call that returns or raises, and
--                       Base/Text Python's operations on texts.
--   Json, Json/*        JSON values as Python holds them, dict operations, `==`, `in`.
--   Release/Model       models.py: the row of a release, its history and its checks.
--   Release/Validate    Release.validate, change_status, and the counting of files.
--   Release/Edit        create, update_records, add_records, add_documents, update_document,
--                       lock, delete, enable_validation, update_metadata.
--   Release/Bulk        bulk_update and bulk_preview.
--   Release/Fix         fix_checks and generate_doi.
--   Release/Publish     stage, publish, rollback and the marks of failures; Publish/Task the two
--                       tasks of tasks.py with the rollback of the session; Publish/Ends how a
--                       task may end.
--   Release/Views       _check_experiment, _get_release and the handlers of views.py that change a
--                       release; Views/Guards who may do what; Views/Documents the handlers that
--                       read documents and texts from a request; Views/Curators curator_experiments of
--                       utils.py.
--   Release/Images      the handlers of views.py for images: upload here, and list, deletion and
--                       rename in Images/Change, on the files of Images/Files; Images/Deleted
--                       the deletion of a release with its images.
--   Release/Payload     the JSON of uploads and downloads in views.py.
--   Release/Lifecycle   requests and tasks as steps from row to row, in any order and number.
--   Validation/Expected validations/expected_fields.py, cms.py, metadata.py, experiment.py.
--   Validation/Pid, Slug, Recid  validations/pid.py, slug.py, recid.py.
--   Validation/Files    the checks of files.py, missing_files.py, rucio.py, expand_files.py.
--   Validation/Doi      doi.py, and the random DOIs of modules/datacite/utils.py; the draws of the
--                       random texts are a list that may run out.
--   Validation/Cms2016  cms_2016.py: the fields that are computed from titles and other records.
--   Validation/Links    doc_links.py: the scanner for links (Links/Markdown), the check, the fix.
--   Validation/Lawful, Expected/Lawful, Links/Lawful, Registry  the validations of slugs, DOIs,
--                       recids, expected fields and links as a registry of a release.
--   Cold/Model          cold_storage/models.py and the enumerations of cold_storage/api.py.
--   Cold/Catalog        cold_storage/catalog.py: the tags of the copies, the queue of the index.
--   Cold/Storage        Storage.find_url of cold_storage/storage.py, with the SQL operator LIKE.
--   Cold/Manager        cold_storage/manager.py with Storage.archive and Storage.stage.
--   Cold/Service        check_submitted and process_transfers of cold_storage/service.py.
--   Cold/Requests       class Request of cold_storage/api.py, check_running, process_requests.
--   Cold/Availability   the availability of a record, of cold_storage/api.py.
--   Dump, Dump/*        cernopendata/tasks.py: the entries of a dump of EOS, what a batch of them
--                       changes in the two search indices, and the task over the whole dump.
--   Fixtures/Store      what modules/fixtures/cli.py calls of Invenio, with documented behaviour.
--   Fixtures/Entries    create_*, update_* and delete_* of modules/fixtures/cli.py, and the minters.
--   Fixtures/Load       _process_fixture_files; Load/Catalog the reference that it is held against.
--   Records/Index       cernopendata/api.py: the file indices of records; Index/Reread an index as it
--                       is read back.
--   Records/Flush       the iterator over them, flush_indices and delete_by_record, of the same file.
--   Records/Load        _handle_record_files of modules/fixtures/cli.py.
--   Records/Pages       the pages of files of modules/records/utils.py.
--   */Tests             the theorems at concrete inputs.
--
-- Cold storage (cernopendata/cold_storage) moves the files of published records between disk and
-- tape. Users request records; the service takes requests up as long as there are fewer active
-- transfers than the configuration allows, and the manager starts a transfer for each file that is
-- not there yet and that no unfinished transfer is under way for.
--
-- Two more parts work on the same records: a command (cernopendata/modules/fixtures) loads entries
-- from files in one of six modes, by functions that staging and publishing call too, and a task
-- (cernopendata/tasks.py) compares a dump of the files on EOS with what the portal has of them.
--
-- Conventions. Python's integers that the program computes with are counts and sizes: naturals. A
-- handler or operation that may raise gives a `Result`; one that commits before it raises gives
-- what was committed last. Commits succeed, but for the one of a deletion in
-- Release/Images/Deleted. The messages of errors are constructors that stand for their wording.
-- Timestamps are dropped, and the order of the history stands for them; the id of a release is kept
-- as printed. Staging sets keys in the JSON columns of the row without flagging them as modified,
-- so the committed row keeps them as they were.
--
-- In cold storage, times are dropped but for whether a transfer has finished, and a table is a list
-- in the order of its rows. An operation that raises gives no state: what it committed before that
-- is not followed up there.
--
-- The loops run over lists, by structural recursion. There are three bounds: `show` prints a number n
-- with fuel n + 1, more than it has digits, and the loop of generate_doi, which has no bound in the
-- source, runs over a list of draws. The scanner for links has
-- the length of the text for fuel: each step takes a character or more.
--
-- Parameters. The portal's own database, and its index and DataCite, which no rollback reaches, are
-- the interface Release.Publish.Portal; how the commit of a deleted release ends, the registry of
-- validations is a list of `Validator`; DeepDiff, the minting of DOIs, the check of a DataCite
-- form, `str`, `str.upper`, and the classes of characters `\d` and `str.isdigit` are parameters, as
-- are the curated experiments of a user, whether the database gives a row lock at once, and the
-- rows of persistent identifiers that a query returns.
--
-- Transfer managers, storages, the index and the records are the interface Cold.Model.Site, and
-- what check_running asks of a record is Cold.Requests.RecordCatalog; the library that checks the
-- addresses of mails is a parameter. The search index of the dump task is Dump.Run.Search. The calls
-- of Invenio's database that load entries are Fixtures.Store, with their documented behaviour as the
-- laws IsStore, which two tables fulfil in Fixtures.Tests; _handle_record_files is a parameter of
-- create_record and update_record there, and stands in Records.Load, where the reading of an index
-- file, the making of object versions and what Invenio lists for a record are parameters. The fix of the DOIs takes
-- generate_doi on a source of random texts as a parameter. Of the file system, the answers of each
-- call and the resolution of paths are parameters of Release.Images, as is werkzeug's
-- secure_filename there and in Release.Views.Documents, where _fetch_json is one too.
--
-- Not modelled: pages, themes, search, serializers, markdown, the command line, remote file
-- storage and the reading of URLs, which are input and output or calls of libraries.
pub mod Base
pub mod Json
pub mod Records
pub mod Release
pub mod Validation
pub mod Cold
pub mod Dump
pub mod Fixtures
