-- ===== src/Examples/Config.antt =====
-- A configuration with two servers, read through a small model of JSON values.
use umicat.Base.{
  ℕ, ◌≡◌, refl, Bool, true, false, List, [], ◌∷◌, Option, none, some, arith, if◌then◌else◌,
  get_elem?,
}
use umicat.Base.Int.{ℤ, pos, sum_ℤ, ◌+ℤ◌}
use umicat.Base.Word.{to_u64}
use umicat.Upstream.Server.{Srv}
use umicat.Upstream.RoundRobin.{rounds}
use umicat.Upstream.RoundRobin.Even.{tally}
use umicat.Upstream.Connect.{tcp}
use umicat.Upstream.Select.{round_robin}
use umicat.Strings.Bytes.{codes}
use umicat.Strings.Compare.{cpystrn}
use umicat.Cycle.Config.{
  JsonApi, ok, equal, string_in, parse_server, parse_servers, conf_parse_upstream, conf_parse,
  mode_of, policy_of, log_level_of,
}
use umicat.Cycle.Config.Servers.Described.{HasInt, Describes}
use umicat.Cycle.Config.Fair.{configured_fair}
use umicat.Examples.Data.{server, down_server}

mutual
  data Value : Type 0 where
    number : ℤ → Value
    string : List ℕ → Value
    array : Values → Value
    object : Fields → Value

  data Values : Type 0 where
    nil : Values
    cons : Value → Values → Values

  data Fields : Type 0 where
    end : Fields
    field : List ℕ → Value → Fields → Fields

abbrev items : Values → List Value
items nil = []
items (cons v vs) = v ∷ items vs

abbrev find_field : Fields → List ℕ → Option Value
find_field end name = none
find_field (field key v fs) name = if equal key name then some v else find_field fs name

abbrev object_item : Value → List ℕ → Option Value
object_item (object fs) name = find_field fs name
object_item v name = none

abbrev array_items : Value → List Value
array_items (array vs) = items vs
array_items v = []

abbrev value_int : Value → ℤ
value_int (number n) = n
value_int v = pos 0

abbrev value_string : Value → Option (List ℕ)
value_string (string s) = some s
value_string v = none

abbrev is_string : Value → Bool
is_string (string s) = true
is_string v = false

abbrev server_value : ℕ → Value
server_value weight = object (
    field (codes "upstream_ip") (string (b'1' ∷ [])) (
      field (codes "upstream_port") (number (pos 8080)) (
        field (codes "weight") (number (pos weight)) (
          field (codes "max_fails") (number (pos 3)) (
            field (codes "fail_timeout") (number (pos 10)) (
              field (codes "is_fallback") (number (pos 1))
                (field (codes "traffic_window") (number (pos 60)) end)))))))

abbrev conf_value : Value
conf_value = object (
    field (codes "mode") (string (codes "tcp")) (
      field (codes "localport") (number (pos 0)) (
        field (codes "policy") (string (codes "round_robin")) (
          field (codes "workers") (string (codes "auto")) (
            field (codes "log_level") (string (codes "warn")) (
              field (codes "upstream") (array (cons (server_value 2) (cons (server_value 1) nil)))
                end))))))

-- The parser gives that value for any text.
abbrev api : JsonApi Value
api = record {
  parse = λ text. some conf_value;
  object_item = object_item;
  array_items = array_items;
  valueint = value_int;
  valuestring = value_string;
  is_string = is_string;
  atoi_of = λ text. pos 0;
}

-- The memory of the array holds servers that are down.
abbrev raw : ℕ → Srv
raw i = down_server

abbrev configured : ℕ → Srv
configured w = record (server w) {
  last_send_time = 0;
  check_interval = 0;
  check_timeout = 0;
  check_fall = 0;
  check_rise = 0;
}

conf_parse_test :
    conf_parse api (some []) 8 none (codes "umicat.log") raw
    ≡ ok (record {
      mode = tcp;
      localport = 80;
      policy = round_robin;
      workers_n = 8;
      log_file = codes "umicat.log";
      log_level = 3;
      srvs = configured 2 ∷ configured 1 ∷ [];
    })
unfolding conf_parse mode_of policy_of log_level_of conf_parse_upstream parse_servers parse_server
    string_in cpystrn to_u64 equal
conf_parse_test = refl

read : conf_parse_upstream api raw conf_value ≡ ok (configured 2 ∷ configured 1 ∷ [])
unfolding conf_parse_upstream parse_servers parse_server string_in cpystrn to_u64 equal
read = refl

weights : sum_ℤ (λ x. x) (pos 2 ∷ pos 1 ∷ []) ≡ pos 3
unfolding sum_ℤ ◌+ℤ◌
weights = refl

weight_item : (w : ℕ) → HasInt api (server_value w) (codes "weight") (pos w)
unfolding equal
weight_item w = (number (pos w), refl, refl)

configured_fair_example :
    let ss = configured 2 ∷ configured 1 ∷ [] in
    ((rounds ss (7 ∷ 8 ∷ 9 ∷ [])).1 ≡ ss)
    × ((s : Srv) × (get_elem? ss 0 ≡ some s)
        × Describes api (server_value 2) s
        × (pos (tally (rounds ss (7 ∷ 8 ∷ 9 ∷ [])).0 0) ≡ pos 2))
unfolding equal
configured_fair_example =
    configured_fair api raw conf_value (array (cons (server_value 2) (cons (server_value 1) nil)))
      (configured 2 ∷ configured 1 ∷ []) (pos 2 ∷ pos 1 ∷ []) 3 (7 ∷ 8 ∷ 9 ∷ []) 0 (server_value 2)
      (pos 2) read refl (weight_item 2, (weight_item 1, tt)) (omega arith, (omega arith, tt))
      (omega arith) weights refl refl (weight_item 2)
