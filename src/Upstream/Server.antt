-- ===== src/Upstream/Server.antt =====
-- `uct_upstream_srv_t` (src/uct_upstream.h), and what every policy asks of a server.
use umicat.Base.{
  ℕ, zero, suc, ◌≡◌, ◌==◌, refl, ap, Bool, false, ◌&&◌, List, [], ◌∷◌, some, ltb, arith, get_elem?,
  length,
}
use mathlib.Core.Option
use umicat.Base.Int.{ℤ}
use umicat.Base.Word.{sub64}

-- One server. An address is the list of its bytes; `lock` has no field, since each critical section
-- is one step of the model.
pub record Srv : Type 0 where
  pub upstream_ip : List ℕ
  pub upstream_port : ℕ
  pub weight : ℤ
  pub current_weight : ℤ
  pub effective_weight : ℤ
  pub connection_n : ℕ
  pub traffic : ℕ
  pub traffic_window : ℕ
  pub last_send_time : ℕ
  pub fails : ℕ
  pub max_fails : ℕ
  pub fail_timeout : ℕ
  pub last_fail_time : ℕ
  pub is_down : Bool
  pub is_fallback : Bool
  pub check_type : ℕ
  pub check_port : ℕ
  pub check_interval : ℕ
  pub check_timeout : ℕ
  pub check_fall : ℕ
  pub check_rise : ℕ
  pub check_fails : ℕ
  pub check_successes : ℕ
  pub timerfd : ℤ

-- `is_down && is_fallback && now - last_fail_time < fail_timeout`: the policies pass such a server
-- over. The difference of a `time_t` and an unsigned number is unsigned.
unfoldable pub skipped : ℕ → Srv → Bool
skipped now s = s.is_down && (s.is_fallback && ltb (sub64 now s.last_fail_time) s.fail_timeout)

-- A write through the array; one out of range has no counterpart here.
unfoldable pub modify {ℓ} : {A : Type ℓ} → List A → ℕ → (A → A) → List A
modify [] i f = []
modify (s ∷ ss) zero f = f s ∷ ss
modify (s ∷ ss) (suc i) f = s ∷ modify ss i f

pub get_elem?-modify_ne {ℓ} :
    {A : Type ℓ} (ss : List A) (i j : ℕ) (f : A → A)
    → (j == i) ≡ false
    → get_elem? (modify ss j f) i ≡ get_elem? ss i
unfolding modify
get_elem?-modify_ne [] i j f h = refl
get_elem?-modify_ne (s ∷ ss) zero zero f h = absurd (cc h)
get_elem?-modify_ne (s ∷ ss) zero (suc j) f h = refl
get_elem?-modify_ne (s ∷ ss) (suc i) zero f h = refl
get_elem?-modify_ne (s ∷ ss) (suc i) (suc j) f h = get_elem?-modify_ne ss i j f (ground arith)

pub get_elem?-modify_self {ℓ} :
    {A : Type ℓ} (ss : List A) (i : ℕ) (s : A) (f : A → A)
    → get_elem? ss i ≡ some s
    → get_elem? (modify ss i f) i ≡ some (f s)
unfolding modify
get_elem?-modify_self [] i s f h = cc
get_elem?-modify_self (x ∷ ss) zero s f h = ap (Option.map f) h
get_elem?-modify_self (x ∷ ss) (suc i) s f h = get_elem?-modify_self ss i s f h

pub length-modify {ℓ} :
    {A : Type ℓ} (ss : List A) (i : ℕ) (f : A → A) → length (modify ss i f) ≡ length ss
unfolding modify
length-modify [] i f = refl
length-modify (s ∷ ss) zero f = refl
length-modify (s ∷ ss) (suc i) f = ap suc (length-modify ss i f)
