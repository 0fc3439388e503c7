-- ===== src/Validation/Cms2016/Texts.antt =====
-- The constants of `class CMS_2016_Simulated` (validations/cms_2016.py).
use cernopendata_portal.Base.{◌<>◌}
use cernopendata_portal.Json.{Value, text, arr, obj, end, field, nil, cons}

abbrev pub mini_usage : Value
mini_usage = obj (
    field "description"
      (text (
        "You can access these data through the CMS Open Data container or the"
        <> " CMS Virtual Machine. See the instructions for setting up one of the"
        <> " two alternative environments and getting started in"))
      (field "links"
        (arr (
          cons
            (obj (
              field "description" (text "Running CMS analysis code using Docker")
                (field "url" (text "/docs/cms-guide-docker#images") end)))
            (cons
              (obj (
                field "description" (text "How to install the CMS Virtual Machine")
                  (field "url" (text "/docs/cms-virtual-machine-cc7") end)))
              (cons
                (obj (
                  field "description" (text "Getting started with CMS open data")
                    (field "url" (text "/docs/cms-getting-started-miniaod") end)))
                nil))))
        end))

abbrev pub nano_usage : Value
nano_usage = obj (
    field "links"
      (arr (
        cons
          (obj (
            field "url" (text "/docs/cms-guide-docker#nanoaod")
              (field "description" (text "Using Docker containers") end)))
          (cons
            (obj (
              field "url" (text "/docs/cms-getting-started-nanoaod")
                (field "description" (text "Getting started with CMS NanoAOD") end)))
            nil)))
      (field "description"
        (text (
          "You can access these data through XRootD protocol or direct"
          <> " download, and they can be analysed with common ROOT and Python"
          <> " tools. See the instructionsfor getting started in"))
        end))

abbrev pub mini_system_details : Value
mini_system_details = obj (
    field "container_images"
      (arr (
        cons
          (obj (
            field "name" (text "docker.io/cmsopendata/cmssw_10_6_30-slc7_amd64_gcc700:latest")
              (field "registry" (text "dockerhub") end)))
          (cons
            (obj (
              field "name"
                (text
                  "gitlab-registry.cern.ch/cms-cloud/cmssw-docker-opendata/cmssw_10_6_30-slc7_amd64_gcc700:latest")
                (field "registry" (text "gitlab") end)))
            nil)))
      (field "global_tag" (text "106X_mcRun2_asymptotic_v17")
        (field "release" (text "CMSSW_10_6_30") end)))

abbrev pub nano_system_details : Value
nano_system_details = obj (
    field "description"
      (text (
        "<p>NANOAODSIM datasets are in the <a"
        <> " href=\"https://root.cern.ch/\">ROOT</a>tree format and their"
        <> " analysis does not require the use of CMSSW or CMS opendata"
        <> " environments. They can be analysed with common ROOT and Python" <> " tools.<p>"))
      (field "container_images"
        (arr (
          cons
            (obj (
              field "name" (text "gitlab-registry.cern.ch/cms-cloud/root-vnc")
                (field "registry" (text "gitlab") end)))
            (cons
              (obj (
                field "name" (text "gitlab-registry.cern.ch/cms-cloud/python-vnc")
                  (field "registry" (text "gitlab") end)))
              nil)))
        end))

abbrev pub collections : Value
collections = arr (cons (text "CMS-Simulated-Datasets") nil)

abbrev pub collision_information : Value
collision_information = obj (field "energy" (text "13TeV") (field "type" (text "pp") end))

abbrev pub date_created : Value
date_created = arr (cons (text "2016") nil)

abbrev pub methodology : Value
methodology = text (
    "<p>These data were generated in several steps (see also <a"
    <> " href=\"/docs/cms-mc-production-overview\">CMS Monte Carlo"
    <> " production overview</a>):</p>")

abbrev pub pileup : Value
pileup = obj (
    field "description"
      (text (
        "<p>To make these simulated data comparable with the collision data,"
        <> " <a href=\"/docs/cms-guide-pileup-simulation\">pile-up events</a>"
        <> " are added to thesimulated event in the DIGI2RAW step.</p>"))
      (field "links"
        (arr (
          cons
            (obj (
              field "recid" (text "30595") (
                field "title"
                  (text
                    "/Neutrino_E-10_gun/RunIISummer20ULPrePremix-UL16_106X_mcRun2_asymptotic_v13-v1/PREMIX")
                  end)))
            nil))
        end))

abbrev pub run_period : Value
run_period = arr (cons (text "Run2016G") (cons (text "Run2016H") nil))

abbrev pub dataset_type : Value
dataset_type =
    obj
      (field "primary" (text "Dataset") (field "secondary" (arr (cons (text "Simulated") nil)) end))

abbrev pub validation_text : Value
validation_text = obj (
    field "description"
      (text (
        "The generation and simulation of Monte Carlo data has been validated"
        <> " through generalCMS validation procedures."))
      end)
