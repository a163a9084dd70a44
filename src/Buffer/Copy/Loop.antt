-- ===== src/Buffer/Copy/Loop.antt =====
-- The loop of the copies from an iterator on (src/reactor/buffer.cpp).
use unp.Base.{
  ℕ, zero, suc, ◌+◌, ◌-◌, ◌^◌, ◌≤◌, ◌<◌, ◌≡◌, subst, ap, ◌∙◌, some, List, [], ◌∷◌, ◌++◌, arith,
  length, drop, length-append, length-drop, take_all, true, le→ltb, lt→ltb, sub32, sub64, to_u32,
}
use unp.Buffer.Chain.{Chain, size, content, sub_chain, ◌>>=◌}
use unp.Buffer.Chain.Laws.{IsChain, length-content}
use unp.Buffer.Store.{Buffer}
use unp.Buffer.Packed.{contents, view, IsPacked, AllLive}
use unp.Buffer.Write.Append.{append_chain-view, total_lem}
use unp.Buffer.Copy.{Ending, append_last, with_back, from_loop, copied_length}
use unp.Buffer.Copy.Rounds.{
  Copies, Copies-Round, Copies-last, Round, Stop, append_part, sub_chain_lem, with_back-packed,
  contents_cons, contents-nil, suc_test,
}

-- The bytes of a chain from a place on.
abbrev pub onward : Chain → ℕ → List ℕ
onward c pos = drop (pos - c.misalign) (content c)

length-onward :
    (c : Chain) (pos : ℕ)
    → IsChain c
    → c.misalign ≤ pos
    → pos ≤ c.off
    → length (onward c pos) ≡ c.off - pos
length-onward c pos v from upto =
    omega (arith, length-drop (pos - c.misalign) (content c), length-content c v, v)

from_Stop :
    (ending : Ending) (c : Chain) (pos : ℕ)
    → IsChain c
    → c.misalign ≤ pos
    → pos ≤ c.off
    → Stop
        (λ remain b. (do
          part ← sub_chain c remain true pos
          (b', n) ← append_last ending b part
          some b'))
        (onward c pos)
from_Stop ending c pos v from upto remain b p positive fits small =
    append_part ending c pos remain b p v from positive
      (omega (arith, length-onward c pos v from upto)) small

from_Round :
    (ending : Ending) (c d : Chain) (cs : List Chain) (pos : ℕ)
    → IsChain c
    → c.misalign ≤ pos
    → pos < c.off
    → Round
        (λ r b. from_loop ending (d ∷ cs) c (some (suc (length cs))) pos (sub32 c.off pos) r b)
        (λ r b. from_loop ending cs d (some (length cs)) d.misalign (size d) r b)
        (onward c pos)
unfolding from_loop
from_Round ending c d cs pos v from inside remain b p less word small =
    let len = length-onward c pos v from (omega arith) in
    let can : sub32 c.off pos ≡ length (onward c pos) = omega (arith, len, v) in
    let (part, e0, k, bytes0) =
      sub_chain_lem c (length (onward c pos)) pos v from (omega (arith, len))
        (omega (arith, len)) in
    let whole : content part ≡ onward c pos =
      bytes0 ∙ take_all (length (onward c pos)) (onward c pos) (omega arith) in
    let held : size part ≡ length (onward c pos) =
      omega (arith, length-content part k.chain, ap length whole) in
    let (b1, e, p1, bytes) = append_chain-view b part p k (omega (arith, held)) in
    let bytes' : view b1 ≡ view b ++ onward c pos = bytes ∙ ap (λ t. view b ++ t) whole in
    let left : sub32 remain (length (onward c pos)) ≡ remain - length (onward c pos) =
      omega arith in
    let same : with_back b1 ≡ b1 =
      with_back-packed b1 p1
        (omega (arith, ap length bytes', length-append (view b) (onward c pos), len)) in
    (
      b1,
      record { shape = p1; bytes = bytes' },
      λ b2 e2.
          rw (can, suc_test (length cs), lt→ltb (length (onward c pos)) remain less)
            (rw (e0, ◌>>=◌) (rw (e, ◌>>=◌) (rw (left, same) e2))),
    )

pub from_loop_lem :
    (ending : Ending) (cs : List Chain) (c : Chain) (pos : ℕ)
    → IsChain c
    → AllLive cs
    → c.misalign ≤ pos
    → pos < c.off
    → Copies
        (λ r b. from_loop ending cs c (some (length cs)) pos (sub32 c.off pos) r b)
        (onward c pos ++ contents cs)
unfolding from_loop
from_loop_lem ending [] c pos v live from inside =
    rw contents-nil (Copies-last _ (onward c pos) (from_Stop ending c pos v from (omega arith)))
from_loop_lem ending (d ∷ cs) c pos v live from inside =
    Copies-Round _ (λ r b. from_loop ending cs d (some (length cs)) d.misalign (size d) r b)
      (onward c pos) (contents (d ∷ cs))
      (λ remain b p positive fits small.
        rw
          (
            suc_test (length cs),
            le→ltb (sub32 c.off pos) remain
                (omega (arith, length-onward c pos v from (omega (arith, inside)), v, inside)),
          )
          (from_Stop ending c pos v from (omega arith) remain b p positive fits small))
      (from_Round ending c d cs pos v from inside)
      (rw (contents_cons d cs) (
        subst
          (λ t.
            Copies (λ r b. from_loop ending cs d (some (length cs)) d.misalign (size d) r b)
              (drop t (content d) ++ contents cs))
          zero_start
          (from_loop_lem ending cs d d.misalign live.0.chain live.1 (omega arith)
            (omega (arith, live.0)))))
  where
    zero_start : d.misalign - d.misalign ≡ zero
    zero_start = omega arith

pub copied_length_lem :
    (other : Buffer) (n offset : ℕ)
    → IsPacked other
    → n < 2 ^ 32
    → length (view other) < 2 ^ 32
    → offset + n ≤ length (view other)
    → copied_length other n offset ≡ n
copied_length_lem other n offset p word small fits =
    let most : to_u32 (sub64 other.total offset) ≡ length (view other) - offset =
      omega (arith, total_lem other p) in
    rw (most, le→ltb (length (view other) - offset) n (omega arith)) (omega arith)
