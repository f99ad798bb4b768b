-- ===== src/Cycle/Config.antt =====
-- `uct_conf_parse` and `uct_conf_parse_upstream` (src/uct_cycle.c). The JSON library is third-party:
-- what the code calls of it is the record `JsonApi`. A text is the list of its bytes.
pub mod Fair
pub mod Servers
use umicat.Base.{
  ℕ, zero, suc, ◌+◌, ◌≡◌, Bool, true, false, ◌&&◌, not, List, [], ◌∷◌, ◌==◌, if◌then◌else◌, Option,
  none, some,
}
use umicat.Base.Int.{ℤ, pos, negsuc, ltb_ℤ, eqb_ℤ}
use umicat.Base.Word.{to_u64}
use umicat.Upstream.Server.{Srv}
use umicat.Upstream.Connect.{Mode, tcp, udp, http}
use umicat.Upstream.Select.{Policy, round_robin, ip_hash, least_conn, random, heuristic}
use umicat.Strings.Bytes.{codes}
use umicat.Strings.Compare.{cpystrn}

-- `cJSON_Parse`, `cJSON_GetObjectItem`, the items that `cJSON_GetArrayItem` gives for 0, 1 and so on
-- before `NULL`, `valueint`, `valuestring` (`none` is `NULL`) and `type == cJSON_String`; and `atoi`
-- of the C library.
pub record JsonApi (Node : Type 0) : Type 0 where
  pub parse : List ℕ → Option Node
  pub object_item : Node → List ℕ → Option Node
  pub array_items : Node → List Node
  pub valueint : Node → ℤ
  pub valuestring : Node → Option (List ℕ)
  pub is_string : Node → Bool
  pub atoi_of : List ℕ → ℤ

-- The outcome of a step: `UCT_ERROR` is returned, or a null pointer is read.
pub data Outcome {ℓ} (A : Type ℓ) : Type ℓ where
  ok : A → Outcome A
  error_return : Outcome A
  null_read : Outcome A

-- The next step runs only after one that went well.
infixl 5 ◌>>=◌
abbrev pub ◌>>=◌ {ℓ κ} : {A : Type ℓ} {B : Type κ} → Outcome A → (A → Outcome B) → Outcome B
step >>= next = elim step [
  | ok value ↦ next value
  | error_return ↦ error_return
  | null_read ↦ null_read
]

-- A pointer that is read.
abbrev pub deref {ℓ} : {A : Type ℓ} → Option A → Outcome A
deref none = null_read
deref (some a) = ok a

-- `uct_strcmp(a, b) == 0`.
unfoldable pub equal : List ℕ → List ℕ → Bool
equal [] [] = true
equal (a ∷ s) (b ∷ t) = (a == b) && equal s t
equal s t = false

-- The string in a buffer, up to the '\0'.
unfoldable pub string_in : List ℕ → List ℕ
string_in [] = []
string_in (c ∷ s) = let rest = c ∷ string_in s in if c == 0 then [] else rest

-- `UCT_CHECK_MODE_TCP` to `UCT_CHECK_MODE_SSH`.
unfoldable pub check_type_of : List ℕ → ℕ
unfolding equal
check_type_of name =
    if equal name (codes "tcp")
    then 1
    else if equal name (codes "udp")
    then 2
    else if equal name (codes "http")
    then 3
    else if equal name (codes "ping")
    then 4
    else if equal name (codes "tls")
    then 5
    else if equal name (codes "ssh")
    then 6
    else 1

-- The levels of uct_log.h.
unfoldable pub log_level_of : List ℕ → ℕ
unfolding equal
log_level_of name =
    if equal name (codes "debug")
    then 0
    else if equal name (codes "info")
    then 1
    else if equal name (codes "notice")
    then 2
    else if equal name (codes "warn")
    then 3
    else if equal name (codes "error")
    then 4
    else if equal name (codes "fatal")
    then 5
    else 1

unfoldable pub mode_of : List ℕ → Outcome Mode
unfolding equal
mode_of name =
    if equal name (codes "tcp")
    then ok tcp
    else if equal name (codes "udp")
    then ok udp
    else if equal name (codes "http")
    then ok http
    else error_return

unfoldable pub policy_of : List ℕ → Outcome Policy
unfolding equal
policy_of name =
    if equal name (codes "round_robin")
    then ok round_robin
    else if equal name (codes "ip_hash")
    then ok ip_hash
    else if equal name (codes "least_conn")
    then ok least_conn
    else if equal name (codes "random")
    then ok random
    else if equal name (codes "heuristic")
    then ok heuristic
    else error_return

-- What `uct_conf_parse` sets in the cycle, and the level of the log.
pub record Conf : Type 0 where
  pub mode : Mode
  pub localport : ℕ
  pub policy : Policy
  pub workers_n : ℕ
  pub log_file : List ℕ
  pub log_level : ℕ
  pub srvs : List Srv

module _ {Node : Type 0} (api : JsonApi Node) where
  open api use {parse, object_item, array_items, valueint, valuestring, is_string, atoi_of}

  -- `cJSON_GetObjectItem(node, name)->valueint`, and `->valuestring` where the text is read.
  int_item : Node → List ℕ → Outcome ℤ
  int_item node name = do item ← deref (object_item node name); ok (valueint item)

  string_item : Node → List ℕ → Outcome (List ℕ)
  string_item node name = do item ← deref (object_item node name); deref (valuestring item)

  -- The health check of a server; without one all its fields are 0.
  parse_check : Option Node → Srv → Outcome Srv
  parse_check none s = ok (record s {
    check_type = 0;
    check_port = 0;
    check_interval = 0;
    check_timeout = 0;
    check_fall = 0;
    check_rise = 0;
  })
  parse_check (some check) s = do
    name ← string_item check (codes "type")
    port ← int_item check (codes "port")
    interval ← int_item check (codes "interval")
    timeout ← int_item check (codes "timeout")
    fall ← int_item check (codes "fall")
    rise ← int_item check (codes "rise")
    ok (record s {
      check_type = check_type_of name;
      check_port = to_u64 port;
      check_interval = to_u64 interval;
      check_timeout = to_u64 timeout;
      check_fall = to_u64 fall;
      check_rise = to_u64 rise;
    })

  -- One round of the loop. `raw` is what the memory from `uct_array_push` holds.
  unfoldable pub parse_server : Srv → Node → Outcome Srv
  unfolding int_item string_item parse_check
  parse_server raw uit = do
    ip ← string_item uit (codes "upstream_ip")
    port ← int_item uit (codes "upstream_port")
    weight ← int_item uit (codes "weight")
    max_fails ← int_item uit (codes "max_fails")
    fail_timeout ← int_item uit (codes "fail_timeout")
    is_fallback ← int_item uit (codes "is_fallback")
    traffic_window ← int_item uit (codes "traffic_window")
    parse_check (object_item uit (codes "check")) (record raw {
      upstream_ip = string_in (cpystrn ip 64);
      upstream_port = to_u64 port;
      weight = weight;
      max_fails = to_u64 max_fails;
      fail_timeout = to_u64 fail_timeout;
      is_fallback = not (eqb_ℤ is_fallback (pos 0));
      traffic_window = to_u64 traffic_window;
      traffic = 0;
      last_fail_time = 0;
      fails = 0;
      is_down = false;
      effective_weight = weight;
      current_weight = pos 0;
      connection_n = 0;
    })

  -- The loop from index i on.
  unfoldable pub parse_servers : (ℕ → Srv) → ℕ → List Node → Outcome (List Srv)
  parse_servers raw i [] = ok []
  parse_servers raw i (uit ∷ items) = do
    s ← parse_server (raw i) uit
    rest ← parse_servers raw (suc i) items
    ok (s ∷ rest)

  -- Without an array of servers there are none.
  unfoldable pub conf_parse_upstream : (ℕ → Srv) → Node → Outcome (List Srv)
  conf_parse_upstream raw root = elim (object_item root (codes "upstream")) [
    | none ↦ ok []
    | some upstream ↦ parse_servers raw 0 (array_items upstream)
  ]

  -- `workers_n`, with the number of processors.
  workers_of : ℕ → Node → Outcome ℕ
  workers_of corenum workers =
      if is_string workers
      then (do
        name ← deref (valuestring workers)
        ok (if equal name (codes "auto") then corenum else to_u64 (atoi_of name)))
      else if ltb_ℤ (pos 0) (valueint workers)
      then ok (to_u64 (valueint workers))
      else ok corenum

  -- The file of the log: from the command line, or of the configuration, or the default.
  log_file_of : Option (List ℕ) → List ℕ → Node → Outcome (List ℕ)
  log_file_of (some given) default root = ok given
  log_file_of none default root = elim (object_item root (codes "log_file")) [
    | none ↦ ok default
    | some item ↦ do name ← deref (valuestring item); ok (string_in (cpystrn name 64))
  ]

  -- `file` is what is read from the file, `none` if it cannot be opened.
  unfoldable pub conf_parse :
      Option (List ℕ) → ℕ → Option (List ℕ) → List ℕ → (ℕ → Srv) → Outcome Conf
  unfolding string_item int_item workers_of log_file_of
  conf_parse none corenum given default raw = error_return
  conf_parse (some text) corenum given default raw = elim (parse text) [
    | none ↦ error_return
    | some root ↦ do
      mode_name ← string_item root (codes "mode")
      mode ← mode_of mode_name
      port ← int_item root (codes "localport")
      policy_name ← string_item root (codes "policy")
      policy ← policy_of policy_name
      workers ← deref (object_item root (codes "workers"))
      workers_n ← workers_of corenum workers
      log_file ← log_file_of given default root
      level_name ← string_item root (codes "log_level")
      srvs ← conf_parse_upstream raw root
      ok (record {
        mode = mode;
        localport = if ltb_ℤ (pos 0) port then to_u64 port else 80;
        policy = policy;
        workers_n = workers_n;
        log_file = log_file;
        log_level = log_level_of level_name;
        srvs = srvs;
      })
  ]
