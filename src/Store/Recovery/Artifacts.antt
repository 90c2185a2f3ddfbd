-- ===== src/Store/Recovery/Artifacts.antt =====
-- What historicalStageEvidenceTx of internal/store/workflow_state.go takes from the artifacts.
use vibe_forge.Base.{
  ltb, ◌≤◌, ◌≢◌, ◌≡◌, ◌⊎◌, ◌↔◌, ◌∙◌, refl, sym, ap, Bool, true, Option, none, some, List, [], ◌∷◌,
  arith, Bool-cases, inl, inr, ◌==◌,
}
use mathlib.Core.List.{Memᴰ}
use mathlib.Core.List.Memᴰ
use vibe_forge.Contract.{Stage}
use vibe_forge.Store.Model.{Key, Attempt, StageArtifact, Event, EventType, Db}
use vibe_forge.Store.Rows.{is_some}
use vibe_forge.Store.Table.{select_where, sort_by}
use vibe_forge.Store.Table.Members.{IsIn, select_where-IsIn, sort_by-IsIn}
use vibe_forge.Store.Recovery.{
  Evidence, same_stage, at_stage, start_seen, event_seen, events_seen, artifacts_seen, no_evidence,
  is_evidence, historical_evidence, higher_attempt, last_attempt,
}

-- The artifact belongs to the attempt, where there is one.
abbrev pub OfAttempt : Option Key → StageArtifact → Type 0
OfAttempt none a = Unit {0}
OfAttempt (some attempt) a = a.attempt_id ≡ attempt

-- A stored artifact of the run, of the attempt and of the stage.
abbrev pub LeftArtifact : Key → Option Key → Db → Stage → Type 0
LeftArtifact run attempt db s =
    (a : StageArtifact) × IsIn a db.artifacts
    × (a.run_id ≡ run)
    × OfAttempt attempt a
    × (a.stage ≡ s)

abbrev shows : Evidence → Stage → Bool
shows ev s = is_some (ev.of_stage s).artifact_at

same_stage_sound : (a b : Stage) → same_stage a b ≡ true → a ≡ b
same_stage_sound a b h = ground arith

same_stage_refl : (a : Stage) → same_stage a a ≡ true
same_stage_refl a = ground arith

start_seen-shows :
    (o : Option Stage) (e : Event) (ev : Evidence) (s : Stage)
    → shows (start_seen o e.created_at ev) s ≡ shows ev s
start_seen-shows none e ev s = refl
start_seen-shows (some t) e ev s = elim (Bool-cases (same_stage t s)) [
  | inl h ↦ rw (h) refl
  | inr h ↦ rw (h) refl
]

event_seen-shows :
    (type : EventType) (e : Event) (ev : Evidence) (s : Stage)
    → shows (event_seen type e ev) s ≡ shows ev s
event_seen-shows EventType.stage_started e ev s = start_seen-shows e.payload.stage e ev s
event_seen-shows EventType.run_failed e ev s = refl
event_seen-shows _ e ev s = refl

events_seen-shows :
    (events : List Event) (ev : Evidence) (s : Stage) → shows (events_seen events ev) s ≡ shows ev s
unfolding events_seen
events_seen-shows [] ev s = refl
events_seen-shows (e ∷ events) ev s =
    events_seen-shows events (event_seen e.type e ev) s ∙ event_seen-shows e.type e ev s

abbrev IsOneOf : Stage → List StageArtifact → Type 0
IsOneOf s artifacts = (a : StageArtifact) × IsIn a artifacts × (a.stage ≡ s)

abbrev seen_one : StageArtifact → Evidence → Evidence
seen_one a ev = at_stage a.stage (λ e. record e { artifact_at = some a.created_at }) ev

seen_one-shows :
    (a : StageArtifact) (ev : Evidence) (s : Stage)
    → (shows (seen_one a ev) s ≡ true) ↔ ((a.stage ≡ s) ⊎ (shows ev s ≡ true))
seen_one-shows a ev s = elim (Bool-cases (same_stage a.stage s)) [
  | inl t ↦ rw (t) (λ h. inl (same_stage_sound a.stage s t), λ h. refl)
  | inr f ↦
      rw (f)
        (λ h. inr h, elim [ inl q ↦ absurd (ground (arith, f, q, same_stage_refl s)) | inr h ↦ h ])
]

artifacts_seen-shows :
    (artifacts : List StageArtifact) (ev : Evidence) (s : Stage)
    → (shows (artifacts_seen artifacts ev) s ≡ true) ↔ (IsOneOf s artifacts ⊎ (shows ev s ≡ true))
unfolding artifacts_seen
artifacts_seen-shows [] ev s =
    (λ h. inr h, elim [ inl (a, m, q) ↦ absurd (Memᴰ.not-nil m) | inr h ↦ h ])
artifacts_seen-shows (a ∷ artifacts) ev s =
    let more = artifacts_seen-shows artifacts (seen_one a ev) s in
    let one = seen_one-shows a ev s in
    (
      λ h. elim (more.0 h) [
        | inl (b, m, q) ↦ inl (b, Memᴰ.tail m, q)
        | inr k ↦ elim (one.0 k) [ inl q ↦ inl (a, Memᴰ.head refl, q) | inr old ↦ inr old ]
      ],
      elim [
        | inl (b, m, q) ↦ elim (Memᴰ.cases_cons m) [
          | inl same ↦
              more.1 (inr (one.1 (inl (ap (λ (x : StageArtifact). x.stage) (sym same) ∙ q))))
          | inr k ↦ more.1 (inl (b, k, q))
        ]
        | inr old ↦ more.1 (inr (one.1 (inr old)))
      ],
    )

is_evidence_iff :
    (run : Key) (attempt : Option Key) (a : StageArtifact)
    → (is_evidence run attempt a ≡ true) ↔ ((a.run_id ≡ run) × OfAttempt attempt a)
is_evidence_iff run none a = (λ h. (ground arith, tt), λ h. ground arith)
is_evidence_iff run (some k) a = (λ h. (ground arith, ground arith), λ h. ground arith)

-- The evidence shows an artifact of a stage exactly where one is stored.
pub historical_evidence-LeftArtifact :
    (run : Key) (attempt : Option Key) (db : Db) (s : Stage)
    → (is_some ((historical_evidence run attempt db).of_stage s).artifact_at ≡ true)
      ↔ LeftArtifact run attempt db s
unfolding historical_evidence
historical_evidence-LeftArtifact run attempt db s =
    let rows = select_where (is_evidence run attempt) db.artifacts in
    let column = λ (a : StageArtifact). a.created_at in
    let seen = artifacts_seen-shows (sort_by column rows) (events_seen _ no_evidence) s in
    (
      λ h. elim (seen.0 h) [
        | inl (a, m, q) ↦
            let k =
              (select_where-IsIn (is_evidence run attempt) a db.artifacts).0
                ((sort_by-IsIn column a rows).0 m) in
            let t = (is_evidence_iff run attempt a).0 k.1 in (a, k.0, t.0, t.1, q)
        | inr k ↦ absurd (cc (k, events_seen-shows _ no_evidence s))
      ],
      λ (a, m, r, o, q). seen.1 (
          inl (
            a,
            (sort_by-IsIn column a rows).1 (
                (select_where-IsIn (is_evidence run attempt) a db.artifacts).1
                  (m, (is_evidence_iff run attempt a).1 (r, o))),
            q,
          )),
    )

-- The run's attempt with the greatest sequence, or none where the run has no attempt.
abbrev pub Latest : Key → List Attempt → Option Attempt → Type 0
Latest run attempts none = (u : Attempt) → IsIn u attempts → u.run_id ≢ run
Latest run attempts (some t) =
    IsIn t attempts
    × (t.run_id ≡ run)
    × ((u : Attempt) → IsIn u attempts → u.run_id ≡ run → u.sequence ≤ t.sequence)

higher-Latest :
    (run : Key) (a : Attempt) (attempts : List Attempt) (o : Option Attempt)
    → a.run_id ≡ run
    → Latest run attempts o
    → Latest run (a ∷ attempts) (some (higher_attempt a o))
higher-Latest run a attempts none own h = (
  Memᴰ.head refl,
  own,
  λ u m r. elim (Memᴰ.cases_cons m) [
    | inl q ↦ ground (arith, ap (λ (x : Attempt). x.sequence) q)
    | inr k ↦ absurd (h u k r)
  ],
)
higher-Latest run a attempts (some t) own (there, of_run, greatest) =
    elim (Bool-cases (ltb a.sequence t.sequence)) [
      | inl less ↦ rw (less) (
        Memᴰ.tail there,
        of_run,
        λ u m r. elim (Memᴰ.cases_cons m) [
          | inl q ↦ ground (arith, less, ap (λ (x : Attempt). x.sequence) q)
          | inr k ↦ greatest u k r
        ],
      )
      | inr more ↦ rw (more) (
        Memᴰ.head refl,
        own,
        λ u m r. elim (Memᴰ.cases_cons m) [
          | inl q ↦ ground (arith, ap (λ (x : Attempt). x.sequence) q)
          | inr k ↦ let l = greatest u k r in ground (arith, more, l)
        ],
      )
    ]

other-Latest :
    (run : Key) (a : Attempt) (attempts : List Attempt) (o : Option Attempt)
    → a.run_id ≢ run
    → Latest run attempts o
    → Latest run (a ∷ attempts) o
other-Latest run a attempts none other h = λ u m r. elim (Memᴰ.cases_cons m) [
  | inl q ↦ other (ap (λ (x : Attempt). x.run_id) (sym q) ∙ r)
  | inr k ↦ h u k r
]
other-Latest run a attempts (some t) other (there, of_run, greatest) = (
  Memᴰ.tail there,
  of_run,
  λ u m r. elim (Memᴰ.cases_cons m) [
    | inl q ↦ absurd (other (ap (λ (x : Attempt). x.run_id) (sym q) ∙ r))
    | inr k ↦ greatest u k r
  ],
)

pub last_attempt-Latest :
    (run : Key) (attempts : List Attempt) → Latest run attempts (last_attempt run attempts)
unfolding last_attempt
last_attempt-Latest run [] = λ u m r. absurd (Memᴰ.not-nil m)
last_attempt-Latest run (a ∷ attempts) =
    let more = last_attempt-Latest run attempts in
    elim (Bool-cases (a.run_id == run)) [
      | inl t ↦ rw (t) (higher-Latest run a attempts _ (ground arith) more)
      | inr f ↦ rw (f) (other-Latest run a attempts _ (λ q. ground arith) more)
    ]
