-- ===== src/Conf/Examples.antt =====
-- Runs of conf.c on concrete documents.
use Prim.Native.Nat.{Ordering}
use Prim.Native.String.{String, compare}
use dungeon.Base.{
  ◌≡◌, refl, Bool, true, false, Option, none, some, ℤ, pos, minus_one, ◌↔◌, ◌⊎◌, if◌then◌else◌,
}
use dungeon.Json.{Cjson, Kind, json_number, json_array, json_object}
use dungeon.Conf.{
  conf_check_legal, conf_delete, conf_reload, conf_get_log_level_internal, conf_load_json,
  conf_get_workers_internal,
}
use dungeon.Conf.Load.{IsLegal, conf_check_legal-IsLegal, conf_reload_atomic}

-- A document: a node, or a configuration with a log level and an array of rooms.
data Doc : Type 0 where
  node : Kind → ℤ → Doc
  levelled : ℤ → Doc

abbrev doc_kind : Doc → Kind
doc_kind (node k n) = k
doc_kind (levelled n) = json_object

abbrev doc_int : Doc → ℤ
doc_int (node k n) = n
doc_int (levelled n) = pos 0

abbrev same : String → String → Bool
same a b = elim (compare a b) [ Ordering.eq ↦ true | _ ↦ false ]

abbrev doc_item : Doc → String → Option Doc
doc_item (node k n) name = none
doc_item (levelled n) name =
    if same name "LogLevel"
    then some (node json_number n)
    else if same name "Modules"
    then some (node json_array (pos 0))
    else none

abbrev docs : Cjson
docs = record {
  Json = Doc;
  kind = doc_kind;
  valueint = doc_int;
  valuestring = λ j. "";
  array_size = λ j. 0;
  array_item = λ j n. none;
  object_item = doc_item;
  create = λ es. node json_object (pos 0);
}

level_illegal : conf_check_legal docs (levelled minus_one) ≡ minus_one
unfolding conf_check_legal conf_get_log_level_internal
level_illegal = refl

reload_illegal :
    conf_reload docs true (some (some (levelled minus_one))) (some (levelled (pos 7)))
    ≡ (minus_one, some (levelled (pos 7)))
unfolding conf_reload conf_check_legal conf_load_json conf_get_log_level_internal
reload_illegal = refl

delete_missing : conf_delete docs none ≡ (minus_one, none)
unfolding conf_delete
delete_missing = refl

workers_default : conf_get_workers_internal docs (levelled (pos 7)) (pos 4) ≡ pos 4
unfolding conf_get_workers_internal
workers_default = refl

conf_check_legal-IsLegal_example :
    (conf_check_legal docs (levelled (pos 7)) ≡ pos 0) ↔ IsLegal docs (levelled (pos 7))
conf_check_legal-IsLegal_example = conf_check_legal-IsLegal docs (levelled (pos 7))

conf_reload_atomic_example :
    ((conf : Doc) × (true ≡ true)
      × (some (some (levelled (pos 7))) ≡ some (some conf))
      × IsLegal docs conf
      × (conf_reload docs true (some (some (levelled (pos 7)))) none ≡ (pos 0, some conf)))
    ⊎ (conf_reload docs true (some (some (levelled (pos 7)))) none ≡ (minus_one, none))
conf_reload_atomic_example = conf_reload_atomic docs true (some (some (levelled (pos 7)))) none
