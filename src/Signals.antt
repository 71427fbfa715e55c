-- ===== src/Signals.antt =====
-- The program test (test/test.cpp): documents whose views are told of each text that is appended, and
-- the resolver of its main function.
pub mod Hex
pub mod Views
pub mod Resolve
use asio_tcp.Base.{
  ℕ, zero, suc, ◌+◌, ◌-◌, ◌/◌, ◌%◌, ◌≡◌, Bool, true, false, List, [], ◌∷◌, ◌++◌, codes, ltb, ◌==◌,
  if◌then◌else◌, update,
}

-- boost::signals2::signal<void()>: the slots in the order in which they were connected. A slot is the
-- number of the view that it calls and tracks.
pub record Signal : Type 1 where
  pub Sig : Type 0
  pub slots : Sig → List ℕ
  pub none_connected : Sig
  pub connect : Sig → ℕ → Sig
  pub slots-none_connected : slots none_connected ≡ []
  pub slots-connect : (s : Sig) (v : ℕ) → slots (connect s v) ≡ slots s ++ v ∷ []

pub data Kind : Type 0 where
  text_view : Kind
  hex_view : Kind

-- static_cast<int>(*it), as the 32 bits that std::hex prints; a char is signed.
abbrev pub int_of_char : ℕ → ℕ
int_of_char c = if ltb c 128 then c else c + 4294967040

abbrev pub hex_digit : ℕ → ℕ
hex_digit d = if ltb d 10 then d + 48 else d + 87

-- The digits of a number of at most `n` of them, without zeros in front.
unfoldable pub hex : ℕ → ℕ → List ℕ
hex zero x = []
hex (suc n) x =
    let front = hex n (x / 16) in
    if ltb x 16 then hex_digit x ∷ [] else front ++ hex_digit (x % 16) ∷ []

-- The loop of HexView::refresh.
unfoldable pub hex_bytes : List ℕ → List ℕ
unfolding hex
hex_bytes [] = []
hex_bytes (c ∷ cs) = 32 ∷ hex 8 (int_of_char c) ++ hex_bytes cs

-- TextView::refresh and HexView::refresh, without the end of the line.
unfoldable pub refresh : Kind → List ℕ → List ℕ
unfolding hex_bytes
refresh text_view text = codes "TextView: " ++ text
refresh hex_view text = codes "HexView:" ++ hex_bytes text

-- What a program does with a document.
pub data Op : Type 0 where
  create_op : Kind → Op
  append_op : List ℕ → Op
  reset_op : ℕ → Op

module _ ⦃signal : Signal⦄ where
  -- A Document, the views made for it, which of them still exist, and the lines printed so far, each
  -- with the view that printed it.
  pub record Document : Type 0 where
    pub text : List ℕ
    pub sig : signal.Sig
    pub created : ℕ
    pub kind : ℕ → Kind
    pub alive : ℕ → Bool
    pub output : List (ℕ × List ℕ)

  unfoldable pub new_document : Document
  new_document = record {
    text = [];
    sig = signal.none_connected;
    created = 0;
    kind = λ v. text_view;
    alive = λ v. false;
    output = [];
  }

  -- m_sig(): a slot whose view is gone is not called.
  unfoldable pub emit : (ℕ → Bool) → (ℕ → Kind) → List ℕ → List ℕ → List (ℕ × List ℕ)
  unfolding refresh
  emit alive kind text [] = []
  emit alive kind text (v ∷ vs) =
      let rest = emit alive kind text vs in
      if alive v then (v, refresh (kind v) text) ∷ rest else rest

  unfoldable pub append : List ℕ → Document → Document
  unfolding emit
  append s d = record d {
    text = d.text ++ s;
    output = d.output ++ emit d.alive d.kind (d.text ++ s) (signal.slots d.sig);
  }

  -- TextView::create and HexView::create.
  unfoldable pub create : Kind → Document → Document
  create k d = record d {
    sig = signal.connect d.sig d.created;
    created = suc d.created;
    kind = update d.kind d.created k;
    alive = update d.alive d.created true;
  }

  -- The last pointer to a view is reset.
  unfoldable pub reset : ℕ → Document → Document
  reset v d = record d { alive = update d.alive v false }

  unfoldable pub run_op : Op → Document → Document
  unfolding create append reset
  run_op (create_op k) = create k
  run_op (append_op s) = append s
  run_op (reset_op v) = reset v

  unfoldable pub run_ops : List Op → Document → Document
  unfolding run_op
  run_ops [] d = d
  run_ops (o ∷ os) d = run_ops os (run_op o d)
