-- ===== src/Room/Examples.antt =====
-- Configurations of a room.
use Prim.Native.Nat.{Ordering}
use Prim.Native.String.{String, compare}
use dungeon.Base.{
  ℕ, ◌≡◌, refl, true, false, Option, none, some, ◌⊎◌, ℤ, pos, minus_one, negsuc, zero, suc, Bool,
  ok, if◌then◌else◌,
}
use dungeon.Json.{Cjson, Kind, json_true, json_number, json_string, json_object}
use dungeon.Room.{Setting, get_config, get_address, get_timeouts}
use dungeon.Room.Legal.{Keys, IsLegal, set_to, get_config-IsLegal}

-- The object, and the values that stand in it.
data Doc : Type 0 where
  room_conf yes_value host_value port_value recv_value send_value : Doc

abbrev doc_kind : Doc → Kind
doc_kind room_conf = json_object
doc_kind yes_value = json_true
doc_kind host_value = json_string
doc_kind _ = json_number

abbrev doc_int : Doc → ℤ
doc_int port_value = pos 80
doc_int recv_value = pos 1000
doc_int send_value = pos 2000
doc_int _ = pos 0

abbrev same : String → String → Bool
same a b = elim (compare a b) [ Ordering.eq ↦ true | _ ↦ false ]

abbrev doc_item : Doc → String → Option Doc
doc_item j name =
    if same name "Enabled"
    then some yes_value
    else if same name "LocalAddr"
    then some host_value
    else if same name "LocalPort"
    then some port_value
    else if same name "TimeOut_Recv_ms"
    then some recv_value
    else if same name "TimeOut_Send_ms"
    then some send_value
    else none

abbrev docs : Cjson
docs = record {
  Json = Doc;
  kind = doc_kind;
  valueint = doc_int;
  valuestring = λ j. "localhost";
  array_size = λ j. 0;
  array_item = λ j i. none;
  object_item = doc_item;
  create = λ es. room_conf;
}

-- Addresses are numbers, and each port but 0 resolves.
abbrev resolve : String → ℤ → Option ℕ
resolve host (pos zero) = none
resolve host (pos (suc n)) = some (suc n)
resolve host (negsuc n) = none

abbrev unset : Setting ℕ
unset = record { local_addr = none; recv = 0; send = 0 }

keys : Keys docs resolve room_conf unset
keys = record {
  enabled = yes_value;
  host = host_value;
  port = port_value;
  recv = recv_value;
  send = send_value;
  has_enabled = refl;
  has_host = refl;
  has_port = refl;
  has_recv = refl;
  has_send = refl;
}

taken :
    get_config docs resolve room_conf unset
    ≡ ok (pos 0, record { local_addr = some 80; recv = 1000; send = 2000 })
unfolding get_config get_address get_timeouts
taken = refl

get_config-IsLegal_example :
    ((a : ℕ) × IsLegal docs resolve room_conf unset keys a
      × (get_config docs resolve room_conf unset
          ≡ ok (pos 0, set_to docs resolve room_conf unset keys a)))
    ⊎ ((st' : Setting ℕ) × (get_config docs resolve room_conf unset ≡ ok (minus_one, st'))
        × ((a : ℕ) → ¬ IsLegal docs resolve room_conf unset keys a))
get_config-IsLegal_example = get_config-IsLegal docs resolve room_conf unset keys
