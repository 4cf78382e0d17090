-- ===== src/Space/Procedure/Tests.antt =====
-- The theorems on src-v2/procedure.ts at the installation of a feed that polls a service with a token.
use sequence.Prelude.{String, Bool, true, false, ◌≡◌, refl, arith, List, [], ◌∷◌, none, some}
use sequence.Prelude.Fallible.{Returns, Both}
use sequence.Lang.{Value, undefined, num, str, obj, end, field, Ty, ty, string, number, none_left}
use sequence.Lang.Int.{pos}
use sequence.Compose.Pairs.{fresh}
use sequence.Space.Procedure.{
  ProcedureParam, lit, param, join, strip_prefix, no_values, one_value, value, object, no_entries,
  one_entry,
}
use sequence.Space.Procedure.Plan.{
  ProcedureManifest, always, present, create_topic, declare_processor, store_secret, planned,
  incomplete, topic_created, process_registered, secret_written, plan_procedure, gap,
}
use sequence.Space.Procedure.Gaps.{Accounts, plan_procedure-Accounts}
use sequence.Space.Procedure.Secrets.{redacted_result}
use sequence.Space.Procedure.Secrets.Result.{plan_procedure_secret}
use sequence.Space.Procedure.Config.{plan_processor_config}
use sequence.Space.Procedure.Config.Agrees.{Agrees, plan_processor_config-Agrees}

abbrev parameter : String → Ty → ProcedureParam
parameter name type = record {
  name = name;
  type = type;
  label = none;
  description = none;
  default = undefined;
  optional = false;
  secret = false;
  scale = none;
  round = false;
  ui = undefined;
}

abbrev text : Ty
text = ty string none_left end

abbrev url : ProcedureParam
url = parameter "url" text

abbrev token : ProcedureParam
token = record (parameter "token" text) { secret = true; optional = true }

abbrev minutes : ProcedureParam
minutes = record (parameter "every" (ty number none_left end)) {
  scale = some (pos 60);
  default = num (pos 5);
}

abbrev feed : ProcedureManifest
feed = record {
  id = "feed";
  version = "1";
  title = "A feed";
  description = none;
  tags = none;
  params = url ∷ token ∷ minutes ∷ [];
  derived = ("host", strip_prefix (param "url") "https:") ∷ [];
  steps =
      record {
        body = create_topic (record {
          topic_id = join (one_value (lit (str "feed:")) (one_value (param "host") no_values));
          topic_kind = "feed";
          render_mode = none;
          title = none;
          description = none;
          tags = none;
        });
        guard = always;
      }
      ∷ record {
        body = declare_processor (record {
          name = "poller";
          process_kind = "poll";
          attach_to = param "host";
          config = object (one_entry "seconds" (value (param "every")) no_entries);
        });
        guard = present "url";
      }
      ∷ record {
        body = store_secret (record { key = param "host"; from_param = "token" });
        guard = always;
      }
      ∷ [];
}

abbrev no_text : String → String → Bool
no_text p s = false

abbrev digits : Value → String
digits v = "n"

abbrev values : String → List (String × Value)
values secret = ("url", str "https:a") ∷ ("token", str secret) ∷ []

no_url : plan_procedure no_text digits feed [] ≡ some (incomplete (gap url ∷ []))
unfolding plan_procedure
no_url = refl

config_of_poller :
    plan_processor_config no_text digits feed "poller" (values "k")
    ≡ some (some (fresh (obj (field "seconds" (num (pos 300)) end))))
unfolding plan_processor_config
config_of_poller = refl

plan_of_feed :
    plan_procedure no_text digits feed (values "k")
    ≡ some (
        planned (
          topic_created (record {
            topic_id = "feed:a";
            topic_kind = "feed";
            render_mode = none;
            title = none;
            description = none;
            tags = none;
          })
          ∷ process_registered (record {
            name = "poller";
            process_ref = "process:poll:poller";
            process_kind = "poll";
            attach_to = "a";
            config = fresh (obj (field "seconds" (num (pos 300)) end));
          })
          ∷ secret_written "a" "k"
          ∷ []))
unfolding plan_procedure
plan_of_feed = refl

plan_procedure-Accounts_example :
    Returns
      (Accounts no_text digits (values "k") feed)
      (plan_procedure no_text digits feed (values "k"))
plan_procedure-Accounts_example = plan_procedure-Accounts no_text digits (values "k") feed

plan_procedure_secret_example :
    Both
      (λ r q. redacted_result r ≡ redacted_result q)
      (plan_procedure no_text digits feed (values "k"))
      (plan_procedure no_text digits feed (values "l"))
unfolding plan_procedure
plan_procedure_secret_example =
    plan_procedure_secret no_text digits feed (values "k") (values "l")
      ((λ h. refl, refl), ((λ h. absurd (ground arith), refl), ((λ h. refl, refl), tt)))

plan_processor_config-Agrees_example :
    Returns
      (λ r.
        Agrees no_text digits "poller" r
          (plan_processor_config no_text digits feed "poller" (values "k")))
      (plan_procedure no_text digits feed (values "k"))
plan_processor_config-Agrees_example =
    plan_processor_config-Agrees no_text digits "poller" feed (values "k")
