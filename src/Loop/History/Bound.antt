-- ===== src/Loop/History/Bound.antt =====
-- What the bounded history keeps of the conversation, and how long it is.
use dzzzr_cli.Base.{
  ℕ, zero, suc, ◌+◌, ◌-◌, ◌≤◌, ◌≡◌, refl, ap, true, false, not, ◌||◌, inl, inr, List, [], ◌∷◌,
  arith, leb, if◌then◌else◌, Text, text_eq, is_empty, any, length, length-append, keep, Bool-cases,
  All,
}
use dzzzr_cli.Loop.History.{
  Message, Decoder, total_budget, per_result, omitted, suffix, is_tool, is_source, is_replaceable,
  bytes_of, source_bytes, source_key, compact, rune_floor, take, min, cut, bound_result,
  bound_message, bound_results,
}

rune_floor_le : (text : Text) (n : ℕ) → rune_floor text n ≤ n
unfolding rune_floor
rune_floor_le text zero = omega arith
rune_floor_le text (suc n) = ground (arith, rune_floor_le text n)

length-take : (n : ℕ) (text : Text) → length (take n text) ≤ n
length-take zero text = omega arith
length-take (suc n) [] = omega arith
length-take (suc n) (b ∷ text) = omega (arith, length-take n text)

length-cut : (text : Text) (budget : ℕ) → length suffix ≤ budget → length (cut text budget) ≤ budget
unfolding cut
length-cut text budget h = omega (
  arith,
  length-append (take (rune_floor text (budget - length suffix)) text) suffix,
  length-take (rune_floor text (budget - length suffix)) text,
  rune_floor_le text (budget - length suffix),
  h,
)

-- The bytes that a content counts against the budget: a placeholder counts none.
unfoldable pub charge : Text → ℕ
charge text = if text_eq text omitted then 0 else length text

charge_le : (text : Text) → charge text ≤ length text
unfolding charge
charge_le text = elim (Bool-cases (text_eq text omitted)) [
  | inl e ↦ rw e (omega arith)
  | inr e ↦ rw e (omega arith)
]

charge-omitted : charge omitted ≡ 0
unfolding charge text_eq
charge-omitted = refl

min_le : (a b : ℕ) → (min a b ≤ a) × (min a b ≤ b)
min_le a b = ground arith

-- What one result is charged comes out of what remained, and it is no longer than one result may be.
bound_result_lem :
    (text : Text) (remaining : ℕ)
    → ((bound_result text remaining).0 + charge (bound_result text remaining).1 ≤ remaining)
      × (length (bound_result text remaining).1 ≤ per_result)
unfolding bound_result
bound_result_lem text remaining =
    let budget = min per_result remaining in
    let (small, within) = min_le per_result remaining in
    elim (Bool-cases (leb (length text) budget)) [
      | inl fits ↦ rw fits (ground (arith, charge_le text, fits), ground arith)
      | inr long ↦ elim (Bool-cases (leb budget (length suffix + length omitted))) [
        | inl none_left ↦ rw (long, none_left) (omega (arith, charge-omitted), omega arith)
        | inr room ↦
            let fits = length-cut text budget (ground arith) in
            rw (long, room) (omega (arith, charge_le (cut text budget), fits), omega arith)
      ]
    ]

-- The charge of every result that may be cut.
unfoldable pub charged : (Text → Text) → List Message → ℕ
charged f [] = 0
charged f (m ∷ ms) = (if is_replaceable f m then charge m.content else 0) + charged f ms

-- A result that may be cut is no longer than one result may be.
abbrev pub Fits : (Text → Text) → Message → Type 0
Fits f m = (if is_replaceable f m then length m.content else 0) ≤ per_result

-- A message without its content: its role, its calls and the id that it answers.
unfoldable pub frames : List Message → List Message
frames [] = []
frames (m ∷ ms) = record m { content = [] } ∷ frames ms

bound_message_lem :
    (f : Text → Text) (m : Message) (remaining : ℕ)
    → ((bound_message f m remaining).0
          + (if is_replaceable f (bound_message f m remaining).1
              then charge (bound_message f m remaining).1.content
              else 0)
        ≤ remaining)
      × Fits f (bound_message f m remaining).1
unfolding bound_message is_replaceable is_tool
bound_message_lem f m remaining =
    let (less, fits) = bound_result_lem m.content remaining in
    elim (Bool-cases (is_replaceable f m)) [
      | inl e ↦ simp e (less, fits)
      | inr e ↦ simp e (omega arith, omega arith)
    ]

-- Whatever the history, the results that may be cut are charged no more than the total budget in
-- what is sent, the placeholders of those left out not counted, and each is at most the limit of one.
pub bound_results_lem :
    (f : Text → Text) (ms : List Message)
    → ((bound_results f ms).0 + charged f (bound_results f ms).1 ≤ total_budget)
      × All (Fits f) (bound_results f ms).1
unfolding bound_results charged
bound_results_lem f [] = (omega arith, tt)
bound_results_lem f (m ∷ ms) =
    let (less, fits) = bound_results_lem f ms in
    let (left, one) = bound_message_lem f m (bound_results f ms).0 in
    (omega (arith, less, left), (one, fits))

frame-bound_message :
    (f : Text → Text) (m : Message) (remaining : ℕ)
    → record ((bound_message f m remaining).1) { content = [] } ≡ record m { content = [] }
unfolding bound_message
frame-bound_message f m remaining = elim (Bool-cases (is_replaceable f m)) [
  | inl e ↦ simp e refl
  | inr e ↦ simp e refl
]

pub frames-bound_results :
    (f : Text → Text) (ms : List Message) → frames (bound_results f ms).1 ≡ frames ms
unfolding bound_results frames
frames-bound_results f [] = refl
frames-bound_results f (m ∷ ms) =
    cc (frame-bound_message f m (bound_results f ms).0, frames-bound_results f ms)

pub keep-bound_results :
    (f : Text → Text) (ms : List Message)
    → keep (λ m. not (is_replaceable f m)) (bound_results f ms).1
      ≡ keep (λ m. not (is_replaceable f m)) ms
unfolding bound_results bound_message keep is_replaceable is_tool
keep-bound_results f [] = refl
keep-bound_results f (m ∷ ms) = elim (Bool-cases (is_replaceable f m)) [
  | inl e ↦ simp e (keep-bound_results f ms)
  | inr e ↦ simp e (ap (λ rest. m ∷ rest) (keep-bound_results f ms))
]

-- A result is one that may be cut or one of a source, never both.
source-not-replaceable :
    (f : Text → Text) (m : Message) → is_replaceable f m ≡ true → is_source f m ≡ false
unfolding is_replaceable is_source
source-not-replaceable f m h = ground arith

pub source_bytes-bound_results :
    (d : Decoder) (f : Text → Text) (ms : List Message)
    → source_bytes d f (bound_results f ms).1 ≡ source_bytes d f ms
unfolding bound_results bound_message source_bytes is_source is_tool
source_bytes-bound_results d f [] = refl
source_bytes-bound_results d f (m ∷ ms) = elim (Bool-cases (is_replaceable f m)) [
  | inl e ↦
      simp (e, source-not-replaceable f m e) (ap (λ n. 0 + n) (source_bytes-bound_results d f ms))
  | inr e ↦ simp e (
      ap (λ n. (if is_source f m then bytes_of d f m else 0) + n)
        (source_bytes-bound_results d f ms))
]

pub frames-compact :
    (d : Decoder) (f paths : Text → Text) (seen : List Text) (ms : List Message)
    → frames (compact d f paths seen ms) ≡ frames ms
unfolding compact frames
frames-compact d f paths seen [] = refl
frames-compact d f paths seen (m ∷ ms) =
    let known = frames-compact d f paths seen ms in
    let fresh = frames-compact d f paths (source_key d paths m ∷ seen) ms in
    elim (Bool-cases (not (is_source f m) || is_empty m.content)) [
      | inl e ↦ simp e (cc known)
      | inr e ↦ elim (Bool-cases (any (text_eq (source_key d paths m)) seen)) [
        | inl old ↦ simp (e, old) (cc known)
        | inr new ↦ simp (e, new) (cc fresh)
      ]
    ]
