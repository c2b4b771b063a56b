-- ===== src/Cli/Status/Printed.antt =====
-- What the texts that src/cli/actions/status.rs prints tell of the values printed.
use gruezi.Base.{
  ℕ, zero, suc, ◌≡◌, ◌≢◌, refl, sym, ap, ◌∙◌, Bool, true, false, Option, none, some, List, [], ◌∷◌,
  ◌++◌, reverse, arith, if◌then◌else◌,
}
use mathlib.Core.List.{append_cancel_left, append_cancel_right, reverse-append}
use mathlib.Core.Option
use gruezi.Text.{Text, codes, text_eq}
use gruezi.Text.Decimal.{display, display_injective}
use gruezi.Ha.State.{
  HaState, init, standby, active, debug_state, HaDecisionReason, as_str, startup, startup_hold,
  startup_deadline_expired, already_active, peer_timeout, local_higher_priority,
  local_node_id_tiebreak, peer_higher_priority, peer_node_id_tiebreak, peer_active_no_preempt,
  peer_became_active_conflict, preempt_higher_priority, preempt_node_id_tiebreak, graceful_shutdown,
  runtime_fault, address_action_failed,
}
use gruezi.Cli.Status.{display_bool, millis, or_unknown}

pub millis_injective : (m n : ℕ) → millis m ≡ millis n → m ≡ n
unfolding millis
millis_injective m n e =
    display_injective m n (append_cancel_right (display m) (display n) (codes "ms") e)

pub first : Text → ℕ
first [] = 0
first (c ∷ cs) = c

s-ne-n : ◌≢◌ {A = ℕ} b's' b'n'
s-ne-n e = omega arith

-- The last letter tells them apart.
millis-ne-unknown : (n : ℕ) → millis n ≢ codes "unknown"
unfolding millis first
millis-ne-unknown n e =
    s-ne-n (ap first (sym (reverse-append (display n) (codes "ms")) ∙ ap reverse e))

pub optional_millis :
    (x y : Option ℕ) → or_unknown (Option.map millis x) ≡ or_unknown (Option.map millis y) → x ≡ y
unfolding or_unknown
optional_millis none none e = refl
optional_millis none (some n) e = absurd (millis-ne-unknown n (sym e))
optional_millis (some m) none e = absurd (millis-ne-unknown m e)
optional_millis (some m) (some n) e = ap some (millis_injective m n e)

-- The reading of a state, and of a reason.
read_state : Text → Option HaState
unfolding text_eq
read_state t =
    if text_eq t (codes "Init")
    then some init
    else if text_eq t (codes "Standby")
    then some standby
    else if text_eq t (codes "Active")
    then some active
    else none

read_state-debug : (s : HaState) → read_state (debug_state s) ≡ some s
unfolding read_state debug_state
read_state-debug init = refl
read_state-debug standby = refl
read_state-debug active = refl

pub state_injective : (s t : HaState) → debug_state s ≡ debug_state t → s ≡ t
state_injective s t e =
    let same = sym (read_state-debug s) ∙ ap read_state e ∙ read_state-debug t in cc

pub optional_state :
    (x y : Option HaState)
    → or_unknown (Option.map debug_state x) ≡ or_unknown (Option.map debug_state y)
    → x ≡ y
unfolding or_unknown read_state
optional_state none none e = refl
optional_state none (some t) e = ap read_state e ∙ read_state-debug t
optional_state (some s) none e = sym (read_state-debug s) ∙ ap read_state e
optional_state (some s) (some t) e = ap some (state_injective s t e)

read_in : List HaDecisionReason → Text → Option HaDecisionReason
unfolding text_eq
read_in [] t = none
read_in (r ∷ rs) t = if text_eq t (as_str r) then some r else read_in rs t

read_reason : Text → Option HaDecisionReason
unfolding read_in
read_reason t =
    read_in
      (startup ∷ startup_hold ∷ startup_deadline_expired ∷ already_active ∷ peer_timeout
        ∷ local_higher_priority ∷ local_node_id_tiebreak ∷ peer_higher_priority
        ∷ peer_node_id_tiebreak ∷ peer_active_no_preempt ∷ peer_became_active_conflict
        ∷ preempt_higher_priority ∷ preempt_node_id_tiebreak ∷ graceful_shutdown ∷ runtime_fault
        ∷ address_action_failed ∷ [])
      t

read_reason-as_str : (r : HaDecisionReason) → read_reason (as_str r) ≡ some r
unfolding read_reason as_str
read_reason-as_str startup = refl
read_reason-as_str startup_hold = refl
read_reason-as_str startup_deadline_expired = refl
read_reason-as_str already_active = refl
read_reason-as_str peer_timeout = refl
read_reason-as_str local_higher_priority = refl
read_reason-as_str local_node_id_tiebreak = refl
read_reason-as_str peer_higher_priority = refl
read_reason-as_str peer_node_id_tiebreak = refl
read_reason-as_str peer_active_no_preempt = refl
read_reason-as_str peer_became_active_conflict = refl
read_reason-as_str preempt_higher_priority = refl
read_reason-as_str preempt_node_id_tiebreak = refl
read_reason-as_str graceful_shutdown = refl
read_reason-as_str runtime_fault = refl
read_reason-as_str address_action_failed = refl

pub as_str_injective : (r s : HaDecisionReason) → as_str r ≡ as_str s → r ≡ s
as_str_injective r s e =
    let same = sym (read_reason-as_str r) ∙ ap read_reason e ∙ read_reason-as_str s in cc

pub optional_reason :
    (x y : Option HaDecisionReason)
    → or_unknown (Option.map as_str x) ≡ or_unknown (Option.map as_str y)
    → x ≡ y
unfolding or_unknown read_reason as_str
optional_reason none none e = refl
optional_reason none (some t) e = ap read_reason e ∙ read_reason-as_str t
optional_reason (some s) none e = sym (read_reason-as_str s) ∙ ap read_reason e
optional_reason (some s) (some t) e = ap some (as_str_injective s t e)

pub bool_injective : (a b : Bool) → display_bool a ≡ display_bool b → a ≡ b
unfolding display_bool
bool_injective true true e = refl
bool_injective false false e = refl
bool_injective true false e = absurd (cc)
bool_injective false true e = absurd (cc)

unfoldable pub nth : ℕ → List Text → Text
nth n [] = []
nth zero (l ∷ ls) = l
nth (suc n) (l ∷ ls) = nth n ls

-- The same line, without its label.
pub after_label :
    (k : ℕ) (label x y : Text) (ls ms : List Text)
    → ls ≡ ms
    → nth k ls ≡ label ++ x
    → nth k ms ≡ label ++ y
    → x ≡ y
after_label k label x y ls ms e p q = append_cancel_left label x y (sym p ∙ ap (nth k) e ∙ q)
