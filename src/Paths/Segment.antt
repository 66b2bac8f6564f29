-- ===== src/Paths/Segment.antt =====
-- `GetSegmentAt` of common/path_types.go against the list of a path's segments.
use mathlib.Core.Option
use state_engine.Prelude.{
  ℕ, zero, suc, ◌+◌, ◌-◌, ◌≡◌, refl, ap, Bool, true, false, Option, none, some, List, [], ◌∷◌, ◌++◌,
  append_assoc, ◌∙◌, arith, Bytes, codes, length, slice, length-append, take_of_length,
  drop_of_length, ◌==◌, if◌then◌else◌, get_elem?,
}
use state_engine.Paths.Constants.{slash}

-- The flags `includeLeading` and `includeTrailing`.
unfoldable pub wrap : Bool → Bool → Bytes → Bytes
wrap leading trailing segment =
    let led = if leading then codes "/" ++ segment else segment in
    if trailing then led ++ codes "/" else led

-- The loop. `rest` are the bytes from position `i` on; its end is the round with `i == len(path)`.
-- `start` is `none` for -1, and `seg` counts the segments that have ended, so it is the source's
-- `seg` plus one.
unfoldable pub segment_loop :
    (path : Bytes) (n : ℕ) (leading trailing : Bool) (i : ℕ) (start : Option ℕ) (seg : ℕ)
    (rest : Bytes)
    → Option Bytes
unfolding wrap
segment_loop path n leading trailing i none seg [] = none
segment_loop path n leading trailing i (some s) seg [] =
    if seg == n then some (wrap leading trailing (slice path s i)) else none
segment_loop path n leading trailing i none seg (c ∷ rest) =
    segment_loop path n leading trailing (suc i) (if c == slash then none else some i) seg rest
segment_loop path n leading trailing i (some s) seg (c ∷ rest) =
    let ended = segment_loop path n leading trailing (suc i) none (suc seg) rest in
    let going = segment_loop path n leading trailing (suc i) (some s) seg rest in
    if c == slash
    then if seg == n then some (wrap leading trailing (slice path s i)) else ended
    else going

-- `none` is the result ("", false).
unfoldable pub get_segment_at : Bytes → ℕ → Bool → Bool → Option Bytes
unfolding segment_loop
get_segment_at path n leading trailing = segment_loop path n leading trailing 0 none 0 path

-- The segment that has been read so far, if it is not empty.
abbrev pub flush : Bytes → List Bytes
flush [] = []
flush (c ∷ s) = (c ∷ s) ∷ []

-- The maximal runs of bytes other than slashes, in their order. `cur` is the run being read.
unfoldable pub segments_from : Bytes → Bytes → List Bytes
segments_from cur [] = flush cur
segments_from cur (c ∷ s) =
    let ended = flush cur ++ segments_from [] s in
    let going = segments_from (cur ++ c ∷ []) s in if c == slash then ended else going

abbrev pub segments : Bytes → List Bytes
segments = segments_from []

-- `strings` of path_types_test.go.
segment_tests :
    (get_segment_at (codes "/a/b/c") 1 true false ≡ some (codes "/b"))
    × (get_segment_at (codes "a//b///c") 2 true true ≡ some (codes "/c/"))
    × (get_segment_at (codes "a/b/c/") 3 false false ≡ none)
    × (get_segment_at (codes "blcc://eth1.0/account/0xabc/storage/container/1") 5 false true
        ≡ some (codes "container/"))
unfolding get_segment_at
segment_tests = (refl, refl, refl, refl)

-- The element with number `n`, where the first has the number `seg`.
nth_from : ℕ → ℕ → List Bytes → Option Bytes
nth_from seg n [] = none
nth_from seg n (x ∷ xs) = if seg == n then some x else nth_from (suc seg) n xs

nth_from-get_elem? : (seg n : ℕ) (xs : List Bytes) → nth_from seg (seg + n) xs ≡ get_elem? xs n
unfolding nth_from
nth_from-get_elem? seg n [] = refl
nth_from-get_elem? seg zero (x ∷ xs) = ground arith
nth_from-get_elem? seg (suc n) (x ∷ xs) =
    let e : seg + suc n ≡ suc seg + n = omega arith in
    ground (arith, rw (← e) at (nth_from-get_elem? (suc seg) n xs))

start_of : Bytes → Bytes → Option ℕ
start_of done [] = none
start_of done (c ∷ s) = some (length done)

slice_middle :
    (done cur rest : Bytes)
    → slice (done ++ (cur ++ rest)) (length done) (length done + length cur) ≡ cur
slice_middle done cur rest =
    let e : length done + length cur - length done ≡ length cur = omega arith in
    rw (e, drop_of_length, take_of_length)

-- The loop after `done`, with the run `cur` behind it.
loop-nth :
    (path : Bytes) (n : ℕ) (leading trailing : Bool) (rest done cur : Bytes) (seg i : ℕ)
    → path ≡ done ++ (cur ++ rest)
    → i ≡ length done + length cur
    → segment_loop path n leading trailing i (start_of done cur) seg rest
      ≡ Option.map (wrap leading trailing) (nth_from seg n (segments_from cur rest))
unfolding segment_loop segments_from nth_from start_of
loop-nth path n l t [] done [] seg i p q = refl
loop-nth path n l t [] done (d ∷ cur) seg i p q = rw (p, q, slice_middle) (ground arith)
loop-nth path n l t (c ∷ rest) done [] seg i p q =
    let skip =
      loop-nth path n l t rest (done ++ c ∷ []) [] seg (suc i) (rw append_assoc p)
        (omega (arith, length-append done (c ∷ []))) in
    let begin = loop-nth path n l t rest done (c ∷ []) seg (suc i) p (omega arith) in
    let e : i ≡ length done = omega arith in
    let begun = rw (← e) at begin in ground (arith, skip, begun)
loop-nth path n l t (c ∷ rest) done (d ∷ cur) seg i p q =
    let run = d ∷ cur in
    let after =
      loop-nth path n l t rest (done ++ (run ++ c ∷ [])) [] (suc seg) (suc i)
        (p ∙ simp append_assoc)
        (omega (arith, length-append done (run ++ c ∷ []), length-append run (c ∷ []))) in
    let longer =
      loop-nth path n l t rest done (run ++ c ∷ []) seg (suc i) (p ∙ simp append_assoc)
        (omega (arith, length-append run (c ∷ []))) in
    let cut : slice path (length done) i ≡ run = rw (p, q) (slice_middle done run (c ∷ rest)) in
    ground (arith, cut, after, longer)

-- `GetSegmentAt` finds exactly the segment with number `n` of the path, empty segments not counted,
-- with the slashes that the flags ask for, and reports failure where there are not so many.
pub get_segment_at-segments :
    (path : Bytes) (n : ℕ) (leading trailing : Bool)
    → get_segment_at path n leading trailing
      ≡ Option.map (wrap leading trailing) (get_elem? (segments path) n)
unfolding get_segment_at start_of
get_segment_at-segments path n l t =
    let e : 0 + n ≡ n = omega arith in
    loop-nth path n l t path [] [] 0 0 refl refl
    ∙ ap (Option.map (wrap l t)) (rw e at (nth_from-get_elem? 0 n (segments path)))
