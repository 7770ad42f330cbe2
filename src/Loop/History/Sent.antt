-- ===== src/Loop/History/Sent.antt =====
-- What `boundToolHistory` sends to the model.
use dzzzr_cli.Base.{
  ℕ, ◌≤◌, ◌≡◌, refl, sym, ◌∙◌, true, not, some, inl, inr, List, [], arith, leb, Text, keep,
  Bool-cases, All,
}
use dzzzr_cli.Loop.History.{
  Message, Decoder, total_budget, source_calls, is_replaceable, source_bytes, source_paths,
  compact_source_results, bound_results, budget_of, bound_tool_history,
}
use dzzzr_cli.Loop.History.Bound.{
  charged, Fits, frames, bound_results_lem, frames-bound_results, keep-bound_results,
  source_bytes-bound_results, frames-compact,
}

frames-compacted :
    (d : Decoder) (f : Text → Text) (ms : List Message)
    → frames (compact_source_results d f ms) ≡ frames ms
unfolding compact_source_results
frames-compacted d f ms = frames-compact d f (source_paths d f ms (λ k. [])) [] ms

module _ (d : Decoder) (messages : List Message) (source_budget : ℕ) where
  -- The calls that the history itself makes to the sources.
  abbrev pub calls : Text → Text
  calls = source_calls messages (λ k. [])

  -- What is sent, if anything is: the history, or its compaction, with the results cut, whichever
  -- fits the budget of the sources.
  Sent : List Message → Type 0
  Sent out =
      (chosen : List Message) × (frames chosen ≡ frames messages)
      × (source_bytes d calls chosen ≤ budget_of source_budget)
      × ((bound_results calls chosen).1 ≡ out)

  bound_tool_history-Sent :
      (out : List Message) → bound_tool_history d messages source_budget ≡ some out → Sent out
  unfolding bound_tool_history Sent
  bound_tool_history-Sent out h =
      let compacted = compact_source_results d calls messages in
      elim (Bool-cases (leb (source_bytes d calls messages) (budget_of source_budget))) [
        | inl fits ↦ (messages, refl, ground (arith, fits), cc (rw fits at h))
        | inr over ↦
            elim (Bool-cases (leb (source_bytes d calls compacted) (budget_of source_budget))) [
              | inl fits ↦ (
                compacted,
                frames-compacted d calls messages,
                ground (arith, fits),
                cc (rw (over, fits) at h),
              )
              | inr none_left ↦ cc (rw (over, none_left) at h)
            ]
      ]

  -- A history that is sent has as many messages as the conversation, with the same roles, calls and
  -- answered ids in the same order; the bytes of its source results are within the budget; its other
  -- tool results, placeholders not counted, are within the total budget, each within its own limit.
  pub bound_tool_history_lem :
      (out : List Message)
      → bound_tool_history d messages source_budget ≡ some out
      → (frames out ≡ frames messages)
        × (source_bytes d calls out ≤ budget_of source_budget)
        × (charged calls out ≤ total_budget)
        × All (Fits calls) out
  unfolding Sent
  bound_tool_history_lem out h =
      let (chosen, same, small, cut_out) = bound_tool_history-Sent out h in
      let (less, fits) = bound_results_lem calls chosen in
      rw (sym cut_out) (
        frames-bound_results calls chosen ∙ same,
        rw (source_bytes-bound_results d calls chosen) small,
        omega (arith, less),
        fits,
      )

  -- A conversation whose source results fit the budget is always sent, and of its messages only
  -- tool results that read no source may differ: all the others are sent as they were, in order.
  pub bound_tool_history_intact :
      source_bytes d calls messages ≤ budget_of source_budget
      → (out : List Message) × (bound_tool_history d messages source_budget ≡ some out)
        × (keep (λ m. not (is_replaceable calls m)) out
            ≡ keep (λ m. not (is_replaceable calls m)) messages)
  unfolding bound_tool_history
  bound_tool_history_intact small =
      let fits : leb (source_bytes d calls messages) (budget_of source_budget) ≡ true =
        ground (arith, small) in
      ((bound_results calls messages).1, rw fits refl, keep-bound_results calls messages)
