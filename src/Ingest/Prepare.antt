-- ===== src/Ingest/Prepare.antt =====
-- internal/ingest/ingest.go: the analysis of the events of an envelope before the write. Symbolication
-- is a parameter: what `Resolve` answers for an event.
use crashcart.Base.{
  ℕ, suc, ◌-◌, ◌*◌, ◌^◌, Bool, true, false, not, ◌&&◌, ◌||◌, List, [], ◌∷◌, Option, none, some,
  if◌then◌else◌, ltb, leb, ◌==◌, min, some_row,
}
use crashcart.Base.Text.{Bytes, str_eq, trim_space}
use crashcart.Sentry.Frame.{Frame}
use crashcart.Sentry.Event.{Event, frames}
use crashcart.Sentry.Kind.{culprit}
use crashcart.Sentry.Signature.{fingerprint, needs_symbolication}
use crashcart.Sentry.Platform.{family, family_text, accepts}
use crashcart.Sentry.Times.{to_microsecond}
use crashcart.Ingest.Scrub.{Patterns, redact}

-- `clampPast`.
unfoldable pub clamp_past : ℕ → ℕ → ℕ → ℕ
clamp_past t past now = if ltb t past then to_microsecond now else t

-- A float64 of at least 0 in multiples of the smallest one, 2^-1074: the number 1.
abbrev pub one : ℕ
one = 2 ^ 1074

-- `sampleStore`, over the rounding of a product and the coin's number in [0, 1).
unfoldable pub sample_store : (ℕ → ℕ) → ℕ → ℕ → Bool → Bool
sample_store rounded rate coin unhandled =
    let chance = if unhandled then min one (rounded (rate * 5)) else rate in
    leb one chance || ltb coin chance

-- `nilIfEmpty`.
unfoldable pub nil_if_empty : Bytes → Option Bytes
nil_if_empty s = if str_eq (trim_space s) [] then none else some s

-- What `Resolve` answers.
pub record Resolved : Type 0 where
  pub resolved_frames : List Frame
  pub found : Bool
  pub retry_later : Bool

pub record Prepared : Type 0 where
  pub event : Event
  pub prepared_frames : List Frame
  pub symbolicated : Bool
  pub retry : Bool
  pub print : Bytes
  pub location : Bytes

-- The configuration and the project that an envelope is ingested with, and what is called outside.
pub record Settings : Type 0 where
  pub project_id : ℕ
  pub platform : Bytes
  pub sample_rate : ℕ
  pub retention : ℕ
  pub pii_redact : Bool
  pub patterns : Patterns
  pub normalize_message : Bytes → Bytes
  pub sha256 : Bytes → Bytes
  pub symbols : Option (Event → Resolved)
  pub rounded : ℕ → ℕ

abbrev no_answer : Event → Resolved
no_answer e = record { resolved_frames = frames e; found = false; retry_later = false }

abbrev answer : Settings → Event → Resolved
answer cfg e = elim cfg.symbols [
  | none ↦ no_answer e
  | some resolve ↦ if needs_symbolication e then resolve e else no_answer e
]

-- An event with its frames, fingerprint and culprit.
unfoldable pub prepared : Settings → Event → Prepared
prepared cfg e =
    let r = answer cfg e in
    let stack = if r.found then r.resolved_frames else frames e in
    record {
      event = e;
      prepared_frames = stack;
      symbolicated = r.found;
      retry = r.retry_later && not r.found;
      print = fingerprint cfg.normalize_message cfg.sha256 e stack;
      location = culprit stack;
    }

abbrev pub same_or_clamped : Event → ℕ → Event
same_or_clamped e t = if t == e.timestamp then e else record e { timestamp = t; clamped = true }

-- An event with its time in the retention window, and redacted.
unfoldable pub admitted : Settings → ℕ → Event → Event
unfolding clamp_past
admitted cfg now e =
    let timed = same_or_clamped e (clamp_past e.timestamp (now - cfg.retention) now) in
    if cfg.pii_redact then redact cfg.patterns timed else timed

pub record Analyzed : Type 0 where
  pub preps : List Prepared
  pub duplicates : ℕ
  pub mismatched : ℕ

abbrev is_mismatched : Settings → Event → Bool
is_mismatched cfg e = not (accepts cfg.platform (family_text (family e.platform e.sdk_name)))

abbrev pub count_duplicate : Analyzed → Analyzed
count_duplicate a = record a { duplicates = suc a.duplicates }

abbrev pub with_prepared : Settings → Event → Analyzed → Analyzed
with_prepared cfg e a = record {
  preps = prepared cfg e ∷ a.preps;
  duplicates = a.duplicates;
  mismatched = if is_mismatched cfg e then suc a.mismatched else a.mismatched;
}

-- The loop over the events, after those of some ids: the same event twice counts as a duplicate.
unfoldable pub analyze_from : Settings → ℕ → List Bytes → List Event → Analyzed
unfolding prepared admitted
analyze_from cfg now seen [] = record { preps = []; duplicates = 0; mismatched = 0 }
analyze_from cfg now seen (e ∷ es) =
    let duplicate = some_row (λ id. str_eq id e.event_id) seen in
    let rest = analyze_from cfg now (if duplicate then seen else e.event_id ∷ seen) es in
    if duplicate then count_duplicate rest else with_prepared cfg (admitted cfg now e) rest

unfoldable pub analyze : Settings → ℕ → List Event → Analyzed
unfolding analyze_from
analyze cfg now es = analyze_from cfg now [] es
