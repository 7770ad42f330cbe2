-- ===== src/Loop/History.antt =====
-- agentloop/context.go: the tool results that stay in a model's context. A content is its bytes. What
-- the JSON decoder finds in a call's arguments and in a result is a parameter.
pub mod Bound
pub mod Sent
use dzzzr_cli.Base.{
  ℕ, zero, suc, ◌+◌, ◌-◌, ◌≡◌, refl, Bool, true, false, not, ◌&&◌, ◌||◌, Option, none, some, inl,
  inr, ◌⊎◌, List, [], ◌∷◌, ◌++◌, arith, ltb, leb, if◌then◌else◌, Text, codes, text_eq, is_empty,
  any, length, get_elem?,
}

pub record FunctionCall : Type 0 where
  pub name : Text
  pub arguments : Text

-- `path_argument` is `Arguments["path"]` when it is a string.
pub record ToolCall : Type 0 where
  pub id : Text
  pub name : Text
  pub function : Option FunctionCall
  pub path_argument : Option Text

pub record Message : Type 0 where
  pub role : Text
  pub content : Text
  pub tool_calls : List ToolCall
  pub tool_call_id : Text

-- What `encoding/json` reads: the field "path" of a call's arguments, empty if there is none, and the
-- string in the field "content" of a result.
pub record Decoder : Type 0 where
  pub path_in : Text → Text
  pub content_in : Text → Option Text

abbrev pub default_source_context_bytes : ℕ
default_source_context_bytes = 524288

abbrev pub total_budget : ℕ
total_budget = 48000

abbrev pub per_result : ℕ
per_result = 16000

abbrev pub omitted : Text
omitted =
    codes
      "[Tool result omitted from model context to save space. Do not infer missing data; call the tool with narrower filters or pagination if needed.]"

-- A line feed, then the text.
abbrev pub suffix : Text
suffix =
    10
    ∷ codes
        "[Remaining tool result omitted from model context. This is an incomplete excerpt, not a complete JSON document. Request narrower filters or pagination for missing data.]"

abbrev pub duplicate_source : Text
duplicate_source =
    codes "[Identical to an earlier read of the same source; omitted to save context.]"

unfoldable pub named : Option FunctionCall → Text → Text
named none name = name
named (some f) name = if is_empty name then f.name else name

unfoldable pub is_source_tool : Text → Bool
is_source_tool name =
    text_eq name (codes "read_pdf")
    || (text_eq name (codes "index_pdf") || text_eq name (codes "read_local_file"))

-- A Go map from text to text: a key that is not there reads as the empty text.
abbrev pub set_at : (Text → Text) → Text → Text → Text → Text
set_at f key v = λ k. if text_eq key k then v else f k

-- The names of the source calls by their ids.
unfoldable pub source_calls_of : List ToolCall → (Text → Text) → Text → Text
unfolding named is_source_tool
source_calls_of [] f = f
source_calls_of (c ∷ cs) f =
    let name = named c.function c.name in
    source_calls_of cs (if is_source_tool name then set_at f c.id name else f)

unfoldable pub source_calls : List Message → (Text → Text) → Text → Text
source_calls [] f = f
source_calls (m ∷ ms) f = source_calls ms (source_calls_of m.tool_calls f)

unfoldable pub is_tool : Message → Bool
is_tool m = text_eq m.role (codes "tool")

-- A tool's result that reads a source.
unfoldable pub is_source : (Text → Text) → Message → Bool
is_source f m = is_tool m && not (is_empty (f m.tool_call_id))

-- A tool's result that may be cut.
unfoldable pub is_replaceable : (Text → Text) → Message → Bool
is_replaceable f m = is_tool m && is_empty (f m.tool_call_id)

unfoldable pub first_path : Text → Option Text → Text
first_path decoded none = decoded
first_path decoded (some path) = if is_empty decoded then path else decoded

module _ (d : Decoder) where
  open d use {path_in, content_in}

  unfoldable pub decoded_path : Option FunctionCall → Text
  decoded_path none = []
  decoded_path (some f) = if is_empty f.arguments then [] else path_in f.arguments

  unfoldable pub call_path : ToolCall → Text
  unfolding decoded_path first_path
  call_path c = first_path (decoded_path c.function) c.path_argument

  unfoldable pub source_paths_of : (Text → Text) → List ToolCall → (Text → Text) → Text → Text
  unfolding call_path
  source_paths_of f [] paths = paths
  source_paths_of f (c ∷ cs) paths = source_paths_of f cs (
      if is_empty (f c.id) || is_empty (call_path c)
      then paths
      else set_at paths c.id (call_path c))

  unfoldable pub source_paths : (Text → Text) → List Message → (Text → Text) → Text → Text
  source_paths f [] paths = paths
  source_paths f (m ∷ ms) paths = source_paths f ms (source_paths_of f m.tool_calls paths)

  -- The bytes that one source result counts: the file's, not the JSON envelope's.
  unfoldable pub file_bytes : Text → Option Text → ℕ
  file_bytes content none = length content
  file_bytes content (some inner) = length inner

  unfoldable pub bytes_of : (Text → Text) → Message → ℕ
  unfolding file_bytes
  bytes_of f m =
      if text_eq (f m.tool_call_id) (codes "read_local_file")
      then file_bytes m.content (content_in m.content)
      else length m.content

  unfoldable pub source_bytes : (Text → Text) → List Message → ℕ
  source_bytes f [] = 0
  source_bytes f (m ∷ ms) = (if is_source f m then bytes_of f m else 0) + source_bytes f ms

  unfoldable pub source_key : (Text → Text) → Message → Text
  source_key paths m = paths m.tool_call_id ++ (0 ∷ m.content)

  -- Exact repeats of an earlier source result are replaced; `seen` holds the keys met so far.
  unfoldable pub compact : (Text → Text) → (Text → Text) → List Text → List Message → List Message
  compact f paths seen [] = []
  compact f paths seen (m ∷ ms) =
      let key = source_key paths m in
      let fresh = compact f paths (key ∷ seen) ms in
      let known = compact f paths seen ms in
      if not (is_source f m) || is_empty m.content
      then m ∷ known
      else if any (text_eq key) seen
      then record m { content = duplicate_source } ∷ known
      else m ∷ fresh

  unfoldable pub compact_source_results : (Text → Text) → List Message → List Message
  compact_source_results f ms = compact f (source_paths f ms (λ k. [])) [] ms

-- `utf8.RuneStart`. There is a byte at every place the loop asks for.
unfoldable pub is_rune_start : Option ℕ → Bool
is_rune_start none = true
is_rune_start (some b) = ltb b 128 || leb 192 b

-- The last place not after `end` where a character starts.
unfoldable pub rune_floor : Text → ℕ → ℕ
rune_floor text zero = 0
rune_floor text (suc n) =
    let before = rune_floor text n in
    if is_rune_start (get_elem? text (suc n)) then suc n else before

-- `text[:n]`.
abbrev pub take : ℕ → Text → Text
take zero text = []
take (suc n) [] = []
take (suc n) (b ∷ text) = b ∷ take n text

abbrev pub min : ℕ → ℕ → ℕ
min a b = if ltb b a then b else a

unfoldable pub cut : Text → ℕ → Text
cut text budget = take (rune_floor text (budget - length suffix)) text ++ suffix

-- One replaceable result against what remains of the budget: what remains after it, and its content.
-- The budget stays at or above the length that is taken from it.
unfoldable pub bound_result : Text → ℕ → ℕ × Text
bound_result text remaining =
    let budget = min per_result remaining in
    if leb (length text) budget
    then (remaining - length text, text)
    else if leb budget (length suffix + length omitted)
    then (remaining, omitted)
    else (remaining - length (cut text budget), cut text budget)

unfoldable pub bound_message : (Text → Text) → Message → ℕ → ℕ × Message
bound_message f m remaining =
    let (left, text) = bound_result m.content remaining in
    if is_replaceable f m then (left, record m { content = text }) else (remaining, m)

-- From the last message to the first.
unfoldable pub bound_results : (Text → Text) → List Message → ℕ × List Message
bound_results f [] = (total_budget, [])
bound_results f (m ∷ ms) =
    let (remaining, rest) = bound_results f ms in
    let (left, m') = bound_message f m remaining in (left, m' ∷ rest)

unfoldable pub budget_of : ℕ → ℕ
budget_of zero = default_source_context_bytes
budget_of (suc n) = suc n

-- `boundToolHistory`; `none` is the error that the sources exceed their budget. A budget that is not
-- positive is 0 here.
unfoldable pub bound_tool_history : Decoder → List Message → ℕ → Option (List Message)
bound_tool_history d messages source_budget =
    let budget = budget_of source_budget in
    let f = source_calls messages (λ k. []) in
    let compacted = compact_source_results d f messages in
    if leb (source_bytes d f messages) budget
    then some (bound_results f messages).1
    else if leb (source_bytes d f compacted) budget
    then some (bound_results f compacted).1
    else none
