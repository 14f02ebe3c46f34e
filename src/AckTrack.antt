-- ===== src/AckTrack.antt =====
-- queqiao/internal/pep/acktrack.go: which byte ranges of an outbound stream the peer has
-- acknowledged. Each function is one critical section under the tracker's lock. A waiter that
-- blocks on the condition variable is the outcome `blocks`.
pub mod Sets
pub mod Compact
pub mod Merge
pub mod Cover
pub mod Ops
mod Tests
use sing_quic.Prelude.{
  ℕ, zero, suc, ◌+◌, ◌%◌, Bool, true, false, not, ◌&&◌, ◌||◌, Option, none, some, List, [], ◌∷◌,
  ◌++◌, ltb, leb, ◌==◌, if◌then◌else◌, length, max, u64_mod,
}
use sing_quic.AckRanges.{Range}

pub record AckTracker : Type 0 where
  pub cumulative : ℕ
  pub ranges : List Range
  pub closed : Bool
  pub gen : ℕ

-- `newAckTracker`
abbrev pub new_ack_tracker : AckTracker
new_ack_tracker = record { cumulative = 0; ranges = []; closed = false; gen = 0 }

-- `t.gen++`, with the broadcast to the waiters.
unfoldable pub bump : AckTracker → AckTracker
bump t = record t { gen = (t.gen + 1) % u64_mod }

-- One pass of `compactLocked` over the ranges: the cumulative point, the ranges that are kept, and
-- whether a range went.
pub record Pass : Type 0 where
  pub cumulative : ℕ
  pub kept : List Range
  pub progress : Bool

unfoldable pub compact_pass : ℕ → List Range → Pass
compact_pass cumulative [] = record { cumulative = cumulative; kept = []; progress = false }
compact_pass cumulative ((low, high) ∷ rs) =
    let dropped = compact_pass cumulative rs in
    let folded = compact_pass high rs in
    if leb high cumulative
    then record dropped { progress = true }
    else if leb low cumulative
    then record folded { progress = true }
    else record dropped { kept = (low, high) ∷ dropped.kept }

-- `for progress := true; progress; { … }`; `none` means that the fuel ran out.
unfoldable pub compact_loop : ℕ → ℕ → List Range → Option (ℕ × List Range)
compact_loop zero cumulative ranges = none
compact_loop (suc fuel) cumulative ranges =
    let pass = compact_pass cumulative ranges in
    let again = compact_loop fuel pass.cumulative pass.kept in
    if pass.progress then again else some (pass.cumulative, pass.kept)

-- `compactLocked`: a first pass, and passes until one makes no progress. Each of those but the last
-- takes a range away.
unfoldable pub compact : AckTracker → Option AckTracker
compact t =
    let first = compact_pass t.cumulative t.ranges in
    elim (compact_loop (suc (length first.kept)) first.cumulative first.kept) [
      | none ↦ none
      | some (cumulative, ranges) ↦ some (record t { cumulative = cumulative; ranges = ranges })
    ]

-- `Advance`
unfoldable pub advance : AckTracker → ℕ → Option AckTracker
unfolding bump
advance t sequence =
    if leb sequence t.cumulative
    then some t
    else elim (compact (record t { cumulative = sequence })) [
      | none ↦ none
      | some t' ↦ some (bump t')
    ]

-- The loop of `coveredLocked`, and of `covers` on a snapshot.
unfoldable pub covered_loop : ℕ → ℕ → List Range → Bool
covered_loop start end [] = false
covered_loop start end ((low, high) ∷ rs) =
    let moved = covered_loop high end rs in
    let same = covered_loop start end rs in
    if ltb start low
    then false
    else if ltb start high
    then (if leb end high then true else moved)
    else same

-- `coveredLocked`, which `Covered` calls, and `covers` of a snapshot, on the set that they read.
unfoldable pub covered_in : ℕ → List Range → ℕ → ℕ → Bool
covered_in cumulative ranges start end =
    if leb end start
    then true
    else if leb end cumulative
    then true
    else covered_loop (if ltb start cumulative then cumulative else start) end ranges

unfoldable pub covered : AckTracker → ℕ → ℕ → Bool
covered t start end = covered_in t.cumulative t.ranges start end

-- `t.ranges[i][0] != t.ranges[j][0] …`: the order in which `sort.Slice` puts the ranges.
unfoldable pub before : Range → Range → Bool
before (a, b) (c, d) = if not (a == c) then ltb a c else ltb b d

-- `sort.Slice` by that order.
unfoldable pub insert_range : Range → List Range → List Range
insert_range r [] = r ∷ []
insert_range r (q ∷ rs) =
    let rest = insert_range r rs in if before q r then q ∷ rest else r ∷ q ∷ rs

unfoldable pub sort_ranges : List Range → List Range
sort_ranges [] = []
sort_ranges (r ∷ rs) = insert_range r (sort_ranges rs)

-- The loop of `mergeLocked` behind the range that was merged last.
unfoldable pub coalesce : Range → List Range → List Range
coalesce last [] = last ∷ []
coalesce (low, high) ((a, b) ∷ rs) =
    let joined = coalesce (low, if ltb high b then b else high) rs in
    let rest = coalesce (a, b) rs in if leb a high then joined else (low, high) ∷ rest

unfoldable pub coalesce_all : List Range → List Range
coalesce_all [] = []
coalesce_all (r ∷ rs) = coalesce r rs

-- `mergeLocked`
unfoldable pub merge : List Range → List Range
merge ranges = if ltb (length ranges) 2 then ranges else coalesce_all (sort_ranges ranges)

-- The loop of `Add`: the ranges that are not covered yet are appended.
unfoldable pub append_new : AckTracker → Bool → List Range → Bool × AckTracker
append_new t changed [] = (changed, t)
append_new t changed ((low, high) ∷ rs) =
    let skip = append_new t changed rs in
    let push = append_new (record t { ranges = t.ranges ++ ((low, high) ∷ []) }) true rs in
    if covered t low high then skip else push

-- `Add`
unfoldable pub add : AckTracker → List Range → Option (Bool × AckTracker)
unfolding bump
add t ranges =
    if length ranges == 0
    then some (false, t)
    else (let (changed, t') = append_new t false ranges in
        if not changed
        then some (false, t)
        else elim (compact (record t' { ranges = merge t'.ranges })) [
          | none ↦ none
          | some t'' ↦ some (true, bump t'')
        ])

pub data Waited : Type 0 where
  ready tracker_closed cancelled blocks : Waited

-- One round of the loop of `Wait`.
unfoldable pub wait_round : AckTracker → ℕ → ℕ → Bool → Waited
wait_round t start end is_cancelled =
    if covered t start end
    then ready
    else if t.closed
    then tracker_closed
    else if is_cancelled
    then cancelled
    else blocks

-- One round of the loop of `WaitChange`.
unfoldable pub wait_change_round : AckTracker → ℕ → Bool → Waited × ℕ
wait_change_round t since is_cancelled =
    if not (t.gen == since)
    then (ready, t.gen)
    else if t.closed
    then (tracker_closed, t.gen)
    else if is_cancelled
    then (cancelled, t.gen)
    else (blocks, t.gen)

-- `Close`
unfoldable pub close : AckTracker → AckTracker
close t = record t { closed = true }

-- `Touch`
unfoldable pub touch : AckTracker → AckTracker
unfolding bump
touch t = bump t

pub record AckSnapshot : Type 0 where
  pub cumulative : ℕ
  pub ranges : List Range

-- `Snapshot`
unfoldable pub snapshot : AckTracker → AckSnapshot
snapshot t = record { cumulative = t.cumulative; ranges = t.ranges }

unfoldable pub highest_loop : ℕ → List Range → ℕ
highest_loop top [] = top
highest_loop top ((low, high) ∷ rs) = highest_loop (if ltb top high then high else top) rs

-- `highest`
unfoldable pub highest : AckSnapshot → ℕ
highest s = highest_loop s.cumulative s.ranges

-- `covers`
unfoldable pub covers : AckSnapshot → ℕ → ℕ → Bool
covers s start end =
    if leb end start || leb end s.cumulative
    then true
    else covered_loop (if ltb start s.cumulative then s.cumulative else start) end s.ranges
