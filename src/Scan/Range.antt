-- ===== src/Scan/Range.antt =====
-- `_scan_evm_logs`: a range of blocks that a node refuses is fetched in halves, and in chunks.
use fake_ui.Prelude.{
  ℕ, zero, suc, ◌+◌, ◌-◌, ◌/◌, ◌≤◌, ◌<◌, min, String, Bool, true, false, not, ◌||◌, ◌≡◌, sym, ap,
  ◌∙◌, List, [], ◌∷◌, ◌++◌, any, ◌⊎◌, if◌then◌else◌, ltb→lt, ltb, leb, arith, Bool-cases, inl, inr,
}
use mathlib.Core.List.{append_assoc, append-nil}
use fake_ui.Prelude.Text.{lower, starts_with}
use fake_ui.Prelude.Result.{Result, ok, err, ◌>>=◌}
use fake_ui.Verifier.{Log}

-- `token in text`
unfoldable pub contains : String → String → Bool
contains token String.[] = starts_with String.[] token
contains token (String.◌∷◌ c s) =
    let later = contains token s in if starts_with (String.◌∷◌ c s) token then true else later

unfoldable pub is_evm_log_range_error : String → Bool
unfolding contains
is_evm_log_range_error error =
    any (λ token. contains token (lower error))
      ("limit exceeded" ∷ "block range" ∷ "range too" ∷ "too many" ∷ "query timeout"
        ∷ "response size" ∷ "more than" ∷ [])

-- `eth_getLogs` between two blocks, both included
abbrev pub GetLogs : Type 0
GetLogs = ℕ → ℕ → Result (List Log)

abbrev pub appended : Result (List Log) → Result (List Log) → Result (List Log)
appended left right = left >>= λ l. right >>= λ r. ok (l ++ r)

-- `fetch_range`; the last message is that of a recursion that is still running.
unfoldable pub fetch_range : ℕ → GetLogs → ℕ → ℕ → Result (List Log)
fetch_range zero get start end = err "still fetching"
fetch_range (suc fuel) get start end = elim (get start end) [
  | ok logs ↦ ok logs
  | err e ↦
      if not (is_evm_log_range_error e) || leb end start
      then err e
      else let middle = start + (end - start) / 2 in
        appended (fetch_range fuel get start middle) (fetch_range fuel get (middle + 1) end)
]

-- EVM_SCAN_MAX_BLOCK_RANGE
abbrev pub max_block_range : ℕ
max_block_range = 50000

-- The loop over chunks, each fetched with enough fuel for its blocks.
unfoldable pub fetch_chunks : ℕ → GetLogs → ℕ → ℕ → Result (List Log)
unfolding fetch_range
fetch_chunks zero get start to = if ltb to start then ok [] else err "still fetching"
fetch_chunks (suc fuel) get start to = elim (ltb to start) [
  | true ↦ ok []
  | false ↦
      let end = min to (start + max_block_range) in
      appended (fetch_range (suc (end - start)) get start end) (fetch_chunks fuel get (end + 1) to)
]

unfoldable pub scan_evm_logs : GetLogs → ℕ → ℕ → Result (List Log)
unfolding fetch_chunks
scan_evm_logs get from to = elim (fetch_range (suc (to - from)) get from to) [
  | ok logs ↦ ok logs
  | err e ↦
      if not (is_evm_log_range_error e) || leb (to - from) max_block_range
      then err e
      else fetch_chunks (suc (to - from)) get from to
]

-- The logs of `n` blocks from `start` on.
abbrev pub logs_from : (ℕ → List Log) → ℕ → ℕ → List Log
logs_from block start zero = []
logs_from block start (suc n) = block start ++ logs_from block (suc start) n

logs_from_add :
    (block : ℕ → List Log) (start m n : ℕ)
    → logs_from block start (m + n) ≡ logs_from block start m ++ logs_from block (start + m) n
logs_from_add block start zero n =
    let none_left : 0 + n ≡ n = omega arith in
    let same : start + 0 ≡ start = omega arith in rw (none_left, same)
logs_from_add block start (suc m) n =
    let one_more : suc m + n ≡ suc (m + n) = omega arith in
    let same : start + suc m ≡ suc start + m = omega arith in
    rw (one_more, same, logs_from_add block (suc start) m n)
      (sym (
        append_assoc (block start) (logs_from block (suc start) m)
          (logs_from block (suc start + m) n)))

logs_from_split :
    (block : ℕ → List Log) (start middle end : ℕ)
    → start ≤ middle
    → middle < end
    → logs_from block start (suc (middle - start))
        ++ logs_from block (middle + 1) (suc (end - (middle + 1)))
      ≡ logs_from block start (suc (end - start))
logs_from_split block start middle end h k =
    let all : suc (end - start) ≡ suc (middle - start) + suc (end - (middle + 1)) = omega arith in
    let next : middle + 1 ≡ start + suc (middle - start) = omega arith in
    ap
      (λ m.
        logs_from block start (suc (middle - start))
        ++ logs_from block m (suc (end - (middle + 1))))
      next
    ∙ sym (
        ap (logs_from block start) all
        ∙ logs_from_add block start (suc (middle - start)) (suc (end - (middle + 1))))

-- A node over a chain with these logs: it gives all logs of a range, or refuses the range, and
-- it refuses no single block.
pub record IsNode (block : ℕ → List Log) (get : GetLogs) : Type 0 where
  pub single : (n : ℕ) → get n n ≡ ok (block n)
  pub several :
      (start end : ℕ)
      → start < end
      → (get start end ≡ ok (logs_from block start (suc (end - start))))
        ⊎ ((e : String) × (get start end ≡ err e) × (is_evm_log_range_error e ≡ true))

module _ (block : ℕ → List Log) (get : GetLogs) (node : IsNode block get) where
  -- Halving ends and gives the logs of every block of the range once, in order.
  pub fetch_range-eq :
      (fuel start end : ℕ)
      → start ≤ end
      → end - start < fuel
      → fetch_range fuel get start end ≡ ok (logs_from block start (suc (end - start)))
  unfolding fetch_range
  fetch_range-eq zero start end le h = absurd (omega arith)
  fetch_range-eq (suc fuel) start end le h = elim (Bool-cases (ltb start end)) [
    | inr not_less ↦
        let one : end ≡ start = ground arith in
        let none_between : start - start ≡ 0 = omega arith in
        rw (one, none_between, node.single start, fetch_range)
          (ap ok (sym (append-nil (block start))))
    | inl less ↦ elim (node.several start end (ltb→lt start end less)) [
      | inl given ↦ rw (given, fetch_range)
      | inr (e, refused, range) ↦
          let middle = start + (end - start) / 2 in
          let left =
            fetch_range-eq fuel start middle (omega arith) (omega (arith, ltb→lt start end less)) in
          let right =
            fetch_range-eq fuel (middle + 1) end (omega (arith, ltb→lt start end less))
              (omega (arith, ltb→lt start end less)) in
          let more : leb end start ≡ false = ground arith in
          rw (refused, fetch_range, range, more, left, right)
            (ap ok (
              logs_from_split block start middle end (omega arith)
                (omega (arith, ltb→lt start end less))))
    ]
  ]

  -- If the node gives the logs of a range or refuses it as too large, and refuses no single block,
  -- then the scan of a range of at least one block ends and gives the logs of every block of the
  -- range, once and in order.
  pub scan_evm_logs_complete :
      (from to : ℕ)
      → from ≤ to
      → scan_evm_logs get from to ≡ ok (logs_from block from (suc (to - from)))
  unfolding scan_evm_logs
  scan_evm_logs_complete from to le =
      rw (fetch_range-eq (suc (to - from)) from to le (omega arith), scan_evm_logs)
