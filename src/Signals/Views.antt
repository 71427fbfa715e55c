-- ===== src/Signals/Views.antt =====
-- What one view of a document prints (test/test.cpp), described without the document, the signal and
-- the other views.
use asio_tcp.Base.{
  ℕ, suc, ◌<◌, ◌≤◌, ◌≡◌, refl, sym, ap, ◌∙◌, ap₂, Bool, true, false, List, [], ◌∷◌, ◌++◌, count,
  count-append, ltb, ◌==◌, if◌then◌else◌, arith,
}
use asio_tcp.Signals.{
  Signal, Kind, refresh, Document, new_document, emit, append, create, reset, Op, create_op,
  append_op, reset_op, run_op, run_ops,
}

-- A view is not made yet, there, or gone.
pub data Status : Type 0 where
  unborn : Status
  live : Kind → Status
  gone : Status

-- The text of the document and the number of its views, and what the view saw.
pub record Watch : Type 0 where
  pub text : List ℕ
  pub created : ℕ
  pub status : Status
  pub seen : List (List ℕ)

unfoldable pub no_document : Watch
no_document = record { text = []; created = 0; status = unborn; seen = [] }

abbrev line : Status → List ℕ → List (List ℕ)
line unborn text = []
line (live k) text = refresh k text ∷ []
line gone text = []

abbrev ended : Status → Status
ended unborn = unborn
ended (live k) = gone
ended gone = gone

-- A view is told of each text while it is there, and of the whole text each time.
unfoldable pub observe_op : ℕ → Op → Watch → Watch
observe_op v (create_op k) a = record a {
  created = suc a.created;
  status = if a.created == v then live k else a.status;
}
observe_op v (append_op s) a = record a {
  text = a.text ++ s;
  seen = a.seen ++ line a.status (a.text ++ s);
}
observe_op v (reset_op u) a = record a { status = if u == v then ended a.status else a.status }

unfoldable pub observe : ℕ → List Op → Watch → Watch
unfolding observe_op
observe v [] a = a
observe v (o ∷ os) a = observe v os (observe_op v o a)

-- The lines that a view printed.
unfoldable pub shown : ℕ → List (ℕ × List ℕ) → List (List ℕ)
shown v [] = []
shown v ((u, l) ∷ out) = let rest = shown v out in if u == v then l ∷ rest else rest

shown-append : (v : ℕ) (xs ys : List (ℕ × List ℕ)) → shown v (xs ++ ys) ≡ shown v xs ++ shown v ys
unfolding shown
shown-append v [] ys = refl
shown-append v ((u, l) ∷ xs) ys = ground (arith, shown-append v xs ys)

module _ ⦃signal : Signal⦄ where
  shown-emit_absent :
      (v : ℕ) (alive : ℕ → Bool) (kind : ℕ → Kind) (text : List ℕ) (vs : List ℕ)
      → count v vs ≡ 0
      → shown v (emit alive kind text vs) ≡ []
  unfolding emit shown
  shown-emit_absent v alive kind text [] h = refl
  shown-emit_absent v alive kind text (u ∷ vs) h =
      ground (arith, shown-emit_absent v alive kind text vs)

  shown-emit :
      (v : ℕ) (alive : ℕ → Bool) (kind : ℕ → Kind) (text : List ℕ) (vs : List ℕ)
      → count v vs ≡ 1
      → shown v (emit alive kind text vs) ≡ (if alive v then refresh (kind v) text ∷ [] else [])
  unfolding emit shown
  shown-emit v alive kind text [] h = absurd (omega arith)
  shown-emit v alive kind text (u ∷ vs) h =
      ground (arith, shown-emit_absent v alive kind text vs, shown-emit v alive kind text vs)

  -- How the status of view `v` stands in a document.
  abbrev Matches : ℕ → Status → Document → Type 0
  Matches v unborn d = d.created ≤ v
  Matches v (live k) d = (v < d.created) × (d.alive v ≡ true) × (d.kind v ≡ k)
  Matches v gone d = (v < d.created) × (d.alive v ≡ false)

  pub record Tracks (v : ℕ) (a : Watch) (d : Document) : Type 0 where
    pub text : a.text ≡ d.text
    pub created : a.created ≡ d.created
    pub slots : count v (signal.slots d.sig) ≡ (if ltb v d.created then 1 else 0)
    pub status : Matches v a.status d
    pub seen : a.seen ≡ shown v d.output

  create-status :
      (v : ℕ) (k : Kind) (s : Status) (d : Document)
      → Matches v s d
      → Matches v (if d.created == v then live k else s) (create k d)
  unfolding create
  create-status v k unborn d h = ground arith
  create-status v k (live k') d h = ground arith
  create-status v k gone d h = ground arith

  reset-status :
      (v u : ℕ) (s : Status) (d : Document)
      → Matches v s d
      → Matches v (if u == v then ended s else s) (reset u d)
  unfolding reset
  reset-status v u unborn d h = ground arith
  reset-status v u (live k) d h = ground arith
  reset-status v u gone d h = ground arith

  append-status :
      (v : ℕ) (text : List ℕ) (s : Status) (d : Document)
      → Matches v s d
      → Matches v s (append text d)
  unfolding append
  append-status v text unborn d h = h
  append-status v text (live k) d h = h
  append-status v text gone d h = h

  append-line :
      (v : ℕ) (s : Status) (d : Document) (text : List ℕ)
      → count v (signal.slots d.sig) ≡ (if ltb v d.created then 1 else 0)
      → Matches v s d
      → line s text ≡ shown v (emit d.alive d.kind text (signal.slots d.sig))
  append-line v unborn d text c h =
      ground (arith, shown-emit_absent v d.alive d.kind text (signal.slots d.sig))
  append-line v (live k) d text c h =
      ground (arith, shown-emit v d.alive d.kind text (signal.slots d.sig))
  append-line v gone d text c h =
      ground (arith, shown-emit v d.alive d.kind text (signal.slots d.sig))

  op-Tracks :
      (v : ℕ) (o : Op) (a : Watch) (d : Document)
      → Tracks v a d
      → Tracks v (observe_op v o a) (run_op o d)
  unfolding observe_op run_op
  op-Tracks v (create_op k) a d t = record {
    text = t.text;
    created = ap suc t.created;
    slots =
        ap (count v) (signal.slots-connect d.sig d.created)
        ∙ count-append v (signal.slots d.sig) (d.created ∷ [])
        ∙ ground (arith, t.slots);
    status = rw t.created (create-status v k a.status d t.status);
    seen = t.seen;
  }
  op-Tracks v (append_op s) a d t = record {
    text = ap (◌++ s) t.text;
    created = t.created;
    slots = t.slots;
    status = append-status v s a.status d t.status;
    seen =
        ap₂ ◌++◌ t.seen (
          ap (λ x. line a.status (x ++ s)) t.text
          ∙ append-line v a.status d (d.text ++ s) t.slots t.status)
        ∙ sym (shown-append v d.output _);
  }
  op-Tracks v (reset_op u) a d t = record {
    text = t.text;
    created = t.created;
    slots = t.slots;
    status = reset-status v u a.status d t.status;
    seen = t.seen;
  }

  ops-Tracks :
      (v : ℕ) (os : List Op) (a : Watch) (d : Document)
      → Tracks v a d
      → Tracks v (observe v os a) (run_ops os d)
  unfolding observe run_ops
  ops-Tracks v [] a d t = t
  ops-Tracks v (o ∷ os) a d t = ops-Tracks v os _ _ (op-Tracks v o a d t)

  -- Whatever is done with a document, each view has printed exactly the lines that it should have by
  -- itself: at each append while it existed, the whole text of then in its own form.
  pub shown-run_ops :
      (v : ℕ) (os : List Op)
      → shown v (run_ops os new_document).output ≡ (observe v os no_document).seen
  unfolding new_document no_document shown
  shown-run_ops v os = sym (ops-Tracks v os no_document new_document start).seen
    where
      start : Tracks v no_document new_document
      start = record {
        text = refl;
        created = refl;
        slots = ap (count v) signal.slots-none_connected ∙ ground arith;
        status = omega arith;
        seen = refl;
      }
