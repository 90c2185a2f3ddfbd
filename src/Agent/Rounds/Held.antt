-- ===== src/Agent/Rounds/Held.antt =====
-- What a run of the loop keeps of its run and of its draft (internal/agent/agent.go), while it is
-- under way and once it is over.
use vibe_forge.Base.{ℕ, ◌≡◌, sym, subst, Option, none, some, List}
use vibe_forge.Store.Model.{Key, Db, Run, Version, Payload, EventType}
use vibe_forge.Store.Drafts.{fail_draft_version}
use vibe_forge.Store.Drafts.Settling.{Held, Ended, DraftAt, HeldDraft, fail_draft_version-Ended}
use vibe_forge.Store.Drafts.Rows.{
  OnRows, append_event-Keeps, append_message-Keeps, record_stage_artifact-Keeps,
}
use vibe_forge.Agent.Client.{Outside}
use vibe_forge.Agent.Runner.{World, store_call, emit_payload, quietly}
use vibe_forge.Agent.Runner.Hoare.{Hoare, OnWorld, on_quietly}
use vibe_forge.Agent.Runner.Served.{on_served_call}
use vibe_forge.Agent.Quiet.{KeepsNotes, noted}

-- The draft that the runner keeps is there as a draft.
abbrev pub Tracked : Option Key → Db → Type 0
Tracked none db = Unit {0}
Tracked (some draft) db = DraftAt draft db.versions

abbrev pub Kept : Key → Option Key → Db → Type 0
Kept run c db = Held run db.runs × Tracked c db

abbrev pub Chosen : Key → Key → Option Key → Db → Type 0
Chosen run draft c db = HeldDraft run draft db × (c ≡ some draft)

abbrev pub Closed : Key → Option Key → Db → Type 0
Closed run c db = Ended run db.runs

-- The other requests keep the run as it is and leave its drafts to it.
pub record Spared (out : Outside) (run : Key) : Type 0 where
  pub held : (n : ℕ) (db : Db) → Held run db.runs → Held run (out.others n db).runs
  pub over : (n : ℕ) (db : Db) → Ended run db.runs → Ended run (out.others n db).runs
  pub draft :
      (n : ℕ) (k : Key) (db : Db) → DraftAt k db.versions → DraftAt k (out.others n db).versions

-- Whether the store's call fails or not, the loop goes on.
pub emit-Hoare :
    {K : Option Key → Db → Type 0} {E : World → Type 0} (out : Outside)
    (k : (c : Option Key) → KeepsNotes out (K c)) (run : Key) (type : EventType) (payload : Payload)
    → Hoare (OnWorld K) (emit_payload out run type payload) (λ u. OnWorld K) E
unfolding emit_payload
emit-Hoare out k run type payload =
    on_quietly _ (noted out k _ λ c env. (k c).event env run type payload)

module _ (out : Outside) (run : Key) (s : Spared out run) where
  notes :
      (P : List Run → List Version → Type 0)
      → ((n : ℕ) (db : Db) → OnRows P db → OnRows P (out.others n db))
      → KeepsNotes out (OnRows P)
  notes P others = record {
    others = others;
    event = append_event-Keeps P;
    message = append_message-Keeps P;
    artifact = record_stage_artifact-Keeps P;
  }

  tracked : (c : Option Key) (n : ℕ) (db : Db) → Tracked c db → Tracked c (out.others n db)
  tracked none n db h = tt
  tracked (some draft) n db h = s.draft n draft db h

  pub Kept-Notes : (c : Option Key) → KeepsNotes out (Kept run c)
  Kept-Notes none = notes (λ rs vs. Held run rs × Unit {0}) λ n db h. (s.held n db h.0, tt)
  Kept-Notes (some draft) =
      notes (λ rs vs. Held run rs × DraftAt draft vs)
        λ n db h. (s.held n db h.0, s.draft n draft db h.1)

  pub Chosen-Notes : (draft : Key) (c : Option Key) → KeepsNotes out (Chosen run draft c)
  Chosen-Notes draft c =
      notes (λ rs vs. (Held run rs × DraftAt draft vs) × (c ≡ some draft))
        λ n db h. ((s.held n db h.0.0, s.draft n draft db h.0.1), h.1)

  pub Closed-Notes : (c : Option Key) → KeepsNotes out (Closed run c)
  Closed-Notes c = notes (λ rs vs. Ended run rs) λ n db h. s.over n db h

pub Chosen-Kept :
    (run draft : Key) (w : World) → OnWorld (Chosen run draft) w → OnWorld (Kept run) w
Chosen-Kept run draft w h = (h.0.0, subst (λ c. Tracked c w.db) (sym h.1) h.0.1)

-- A draft that is failed with its run ends the run.
pub fail_draft-Closed :
    {E : World → Type 0} (out : Outside) (run : Key)
    → Spared out run
    → ((n : ℕ) → out.refuses n ≡ none)
    → (draft : Key) (attempt : Option Key)
    → Hoare
        (OnWorld (λ c. HeldDraft run draft))
        (quietly (store_call out λ env. fail_draft_version env draft (some run) attempt))
        (λ u. OnWorld (Closed run))
        E
fail_draft-Closed out run s serves draft attempt = on_quietly _ (
    on_served_call (λ c. HeldDraft run draft) (λ v. Closed run) out
      (λ c n db h. (s.held n db h.0, s.draft n draft db h.1)) serves (OnWorld (Closed run)) _
      λ c env. fail_draft_version-Ended env run draft attempt)
