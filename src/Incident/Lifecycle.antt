-- ===== src/Incident/Lifecycle.antt =====
-- The order in which the pipeline calls its ports, as an automaton that reads the history.
pub mod Stages
pub mod Notifying
pub mod Run
use junando.Common.{
  String, Bool, true, false, ◌&&◌, ◌||◌, not, Option, none, some, List, [], ◌∷◌, ◌==◌, ◌≡◌, refl,
  arith, eq_refl, eq_iff, if◌then◌else◌,
}
use junando.Domain.Cluster.{AlertCluster}
use junando.Incident.Calls.{Call, History}

-- How far the pipeline is. A phase within a cluster carries its fingerprint.
pub data Phase : Type 0 where
  idle silenced released ended broken : Phase
  checked claimed gathering triaged diagnosed sending : String → Phase

-- The clusters before are done, and the next may start.
abbrev pub rests : Phase → Bool
rests Phase.idle = true
rests Phase.silenced = true
rests (Phase.claimed fp) = true
rests (Phase.sending fp) = true
rests _ = false

-- The cluster is claimed, and nothing but queries for traces was done.
abbrev pub is_gathering : String → Phase → Bool
is_gathering fp (Phase.claimed f) = f == fp
is_gathering fp (Phase.gathering f) = f == fp
is_gathering fp _ = false

abbrev pub is_judged : String → Phase → Bool
is_judged fp (Phase.triaged f) = f == fp
is_judged fp p = is_gathering fp p

abbrev pub is_ready : String → Phase → Bool
is_ready fp (Phase.diagnosed f) = f == fp
is_ready fp p = is_judged fp p

abbrev pub is_sending : String → Phase → Bool
is_sending fp (Phase.sending f) = f == fp
is_sending fp _ = false

abbrev pub is_notifying : String → Phase → Bool
is_notifying fp p = is_sending fp p || is_ready fp p

-- What a throw leaves: the check itself threw, the triage threw, or the claim was released and then at
-- most the event written.
abbrev pub is_aborted : String → Phase → Bool
is_aborted fp (Phase.checked f) = f == fp
is_aborted fp (Phase.triaged f) = f == fp
is_aborted fp Phase.released = true
is_aborted fp Phase.ended = true
is_aborted fp _ = false

after_count : Phase → Phase
after_count (Phase.checked fp) = Phase.claimed fp
after_count _ = Phase.broken

after_duplicate : Phase → Phase
after_duplicate (Phase.checked fp) = Phase.idle
after_duplicate _ = Phase.broken

after_suppressed : Phase → Phase
after_suppressed (Phase.claimed fp) = Phase.silenced
after_suppressed _ = Phase.broken

after_query : Phase → Phase
after_query (Phase.claimed fp) = Phase.gathering fp
after_query (Phase.gathering fp) = Phase.gathering fp
after_query _ = Phase.broken

after_event : Phase → Phase
after_event (Phase.claimed fp) = Phase.idle
after_event Phase.silenced = Phase.idle
after_event (Phase.sending fp) = Phase.idle
after_event Phase.released = Phase.ended
after_event _ = Phase.broken

after_warning : Phase → Phase
after_warning Phase.released = Phase.released
after_warning _ = Phase.broken

unfoldable pub next : Phase → Call → Phase
unfolding after_count after_duplicate after_suppressed after_query after_event after_warning
next p Call.read_clock = p
next p (Call.log_error text) = p
next p (Call.count_processed success) = p
next p (Call.is_new fp ttl) = if rests p then Phase.checked fp else Phase.broken
next p Call.count_new = after_count p
next p Call.count_duplicate = after_duplicate p
next p (Call.count_suppressed id) = after_suppressed p
next p (Call.find_by_trace_id id) = after_query p
next p (Call.classify c) =
    if is_gathering c.fingerprint p then Phase.triaged c.fingerprint else Phase.broken
next p (Call.analyze c spans) =
    if is_judged c.fingerprint p then Phase.diagnosed c.fingerprint else Phase.broken
next p (Call.send c analysis channel) =
    if is_notifying c.fingerprint p then Phase.sending c.fingerprint else Phase.broken
next p (Call.reset fp) = if is_sending fp p then Phase.released else Phase.broken
next p (Call.log_info event) = after_event p
next p (Call.log_warn text) = after_warning p

unfoldable pub phase_of : History → Phase
phase_of [] = Phase.idle
phase_of (c ∷ h) = next (phase_of h) c

-- The event may be written, and the next cluster may start.
abbrev pub can_log : Phase → Bool
can_log Phase.silenced = true
can_log (Phase.claimed fp) = true
can_log (Phase.sending fp) = true
can_log _ = false

abbrev pub is_released : Phase → Bool
is_released Phase.released = true
is_released _ = false

abbrev pub is_claimed : String → Phase → Bool
is_claimed fp (Phase.claimed f) = f == fp
is_claimed fp _ = false

abbrev pub is_checked : String → Phase → Bool
is_checked fp (Phase.checked f) = f == fp
is_checked fp _ = false

-- What each call does from the phases in which the pipeline makes it.
pub step_check :
    (fp : String) (ttl : _) (p : Phase)
    → rests p ≡ true
    → is_checked fp (next p (Call.is_new fp ttl)) ≡ true
unfolding next
step_check fp ttl p s = ground (arith, eq_refl fp)

pub step_count :
    (fp : String) (p : Phase)
    → is_checked fp p ≡ true
    → is_claimed fp (next p Call.count_new) ≡ true
unfolding next after_count
step_count fp p s = ground arith

pub step_duplicate :
    (fp : String) (p : Phase) → is_checked fp p ≡ true → rests (next p Call.count_duplicate) ≡ true
unfolding next after_duplicate
step_duplicate fp p s = ground arith

pub step_suppressed :
    (fp id : String) (p : Phase)
    → is_claimed fp p ≡ true
    → can_log (next p (Call.count_suppressed id)) ≡ true
unfolding next after_suppressed
step_suppressed fp id p s = ground arith

pub step_query :
    (fp id : String) (p : Phase)
    → is_gathering fp p ≡ true
    → is_gathering fp (next p (Call.find_by_trace_id id)) ≡ true
unfolding next after_query
step_query fp id p s = ground arith

pub step_classify :
    (c : AlertCluster) (p : Phase)
    → is_gathering c.fingerprint p ≡ true
    → next p (Call.classify c) ≡ Phase.triaged c.fingerprint
unfolding next
step_classify c p s = rw s

pub step_analyze :
    (c : AlertCluster) (spans : _) (p : Phase)
    → is_judged c.fingerprint p ≡ true
    → next p (Call.analyze c spans) ≡ Phase.diagnosed c.fingerprint
unfolding next
step_analyze c spans p s = rw s

pub step_send :
    (c : AlertCluster) (analysis : _) (channel : _) (p : Phase)
    → is_notifying c.fingerprint p ≡ true
    → next p (Call.send c analysis channel) ≡ Phase.sending c.fingerprint
unfolding next
step_send c analysis channel p s = rw s

pub step_reset :
    (fp : String) (p : Phase) → is_sending fp p ≡ true → next p (Call.reset fp) ≡ Phase.released
unfolding next
step_reset fp p s = rw s

pub step_event :
    (event : _) (p : Phase) → can_log p ≡ true → rests (next p (Call.log_info event)) ≡ true
unfolding next after_event
step_event event p s = ground arith

pub step_last_event :
    (event : _) (fp : String) (p : Phase)
    → is_released p ≡ true
    → is_aborted fp (next p (Call.log_info event)) ≡ true
unfolding next after_event
step_last_event event fp p s = ground arith

pub step_warning :
    (text : _) (p : Phase) → is_released p ≡ true → is_released (next p (Call.log_warn text)) ≡ true
unfolding next after_warning
step_warning text p s = ground arith

pub can_log-rests : (p : Phase) → can_log p ≡ true → rests p ≡ true
can_log-rests p s = ground arith

pub claimed-gathering :
    (fp : String) (p : Phase) → is_claimed fp p ≡ true → is_gathering fp p ≡ true
claimed-gathering fp p s = ground arith

pub claimed-can_log : (fp : String) (p : Phase) → is_claimed fp p ≡ true → can_log p ≡ true
claimed-can_log fp p s = ground arith

pub gathering-judged : (fp : String) (p : Phase) → is_gathering fp p ≡ true → is_judged fp p ≡ true
gathering-judged fp p s = ground arith

pub judged-ready : (fp : String) (p : Phase) → is_judged fp p ≡ true → is_ready fp p ≡ true
judged-ready fp p s = ground arith

pub sending-can_log : (fp : String) (p : Phase) → is_sending fp p ≡ true → can_log p ≡ true
sending-can_log fp p s = ground arith

pub sending-notifying :
    (fp : String) (p : Phase) → is_sending fp p ≡ true → is_notifying fp p ≡ true
sending-notifying fp p s = ground arith

pub ready-notifying : (fp : String) (p : Phase) → is_ready fp p ≡ true → is_notifying fp p ≡ true
ready-notifying fp p s = ground arith

pub released-aborted : (fp : String) (p : Phase) → is_released p ≡ true → is_aborted fp p ≡ true
released-aborted fp p s = ground arith

pub checked-aborted : (fp : String) (p : Phase) → is_checked fp p ≡ true → is_aborted fp p ≡ true
checked-aborted fp p s = ground arith
