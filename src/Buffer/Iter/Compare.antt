-- ===== src/Buffer/Iter/Compare.antt =====
-- `buffer_memcmp` of src/reactor/buffer.cpp: whether the bytes from an iterator on are those of a given block.
use unp.Base.{
  ℕ, zero, suc, ◌-◌, ◌≤◌, ◌<◌, ◌^◌, ◌≡◌, refl, sym, ap, ap₂, get_or, ◌∙◌, ◌↔◌, inl, inr, Bool, true,
  false, false≢true, Bool-cases, some, List, [], ◌∷◌, ◌++◌, arith, length, take, drop, min,
  length-append, length-take, length-drop, drop_all, ltb, ◌==◌, ==-eq, ==-ne, ltb→lt, ltb→le, sub64,
  if◌then◌else◌,
}
use unp.Buffer.Chain.{Chain, size, content, ◌>>=◌}
use unp.Buffer.Chain.Laws.{IsChain, length-content, window_of}
use unp.Buffer.Store.{Buffer}
use unp.Buffer.Packed.{contents, view, IsPacked, IsLive, AllLive}
use unp.Buffer.Write.Append.{total_lem}
use unp.Buffer.Iter.{Iter, starts_with, compared, compare_loop, buffer_memcmp}
use unp.Buffer.Iter.Place.{Place, Found-packed}

-- `starts_with` is what it says.
starts_with_lem :
    (mem source : List ℕ) → (starts_with mem source ≡ true) ↔ (take (length source) mem ≡ source)
starts_with_lem mem [] = ((λ h. refl), (λ h. refl))
starts_with_lem [] (x ∷ source) =
    ((λ h. absurd (false≢true h)), (λ h. absurd (omega (arith, ap length h))))
starts_with_lem (y ∷ mem) (x ∷ source) =
    let ih = starts_with_lem mem source in
    elim (Bool-cases (y == x)) [
      | inl h ↦ rw h ((λ e. ap₂ ◌∷◌ (==-eq y x h) (ih.0 e)), (λ e. ih.1 (ap (drop 1) e)))
      | inr h ↦
          rw h
            ((λ e. absurd (false≢true e)), (λ e. absurd (==-ne y x h (ap (λ l. get_or l 0 0) e))))
    ]

-- Only as many bytes are read as there are to compare with.
starts_with-take :
    (mem source : List ℕ) → starts_with mem source ≡ starts_with (take (length source) mem) source
starts_with-take mem [] = refl
starts_with-take [] (x ∷ source) = refl
starts_with-take (y ∷ mem) (x ∷ source) = rw (starts_with-take mem source) refl

starts_with-split :
    (front back source : List ℕ) (n : ℕ)
    → n ≡ min (length source) (length front)
    → starts_with (front ++ back) source
      ≡ (if starts_with front (take n source) then starts_with back (drop n source) else false)
starts_with-split front back [] n e = let none_left : n ≡ 0 = omega arith in rw none_left refl
starts_with-split [] back (x ∷ source) n e =
    let none_left : n ≡ 0 = omega arith in rw none_left refl
starts_with-split (y ∷ front) back (x ∷ source) zero e = absurd (omega arith)
starts_with-split (y ∷ front) back (x ∷ source) (suc n) e =
    let ih = starts_with-split front back source n (omega arith) in
    elim (Bool-cases (y == x)) [ inl h ↦ rw h ih | inr h ↦ rw h refl ]

-- What one round compares.
starts_with_piece :
    (c : Chain) (off : ℕ) (piece : List ℕ)
    → IsChain c
    → c.misalign ≤ off
    → length piece ≤ c.off - off
    → starts_with (drop off c.mem) piece ≡ starts_with (drop (off - c.misalign) (content c)) piece
starts_with_piece c off piece v from fits =
    starts_with-take (drop off c.mem) piece
    ∙ ap (λ t. starts_with t piece) (window_of c (length piece) off v from fits)
    ∙ sym (starts_with-take (drop (off - c.misalign) (content c)) piece)

length-onward :
    (c : Chain) (off : ℕ)
    → IsLive c
    → c.misalign ≤ off
    → off ≤ c.off
    → length (drop (off - c.misalign) (content c)) ≡ c.off - off
length-onward c off l from upto =
    omega (arith, length-drop (off - c.misalign) (content c), length-content c l.chain, l.chain)

-- One round, and what the rest of the loop does with the rest of the source.
starts_with_round :
    (c : Chain) (off : ℕ) (back source : List ℕ)
    → IsLive c
    → c.misalign ≤ off
    → off ≤ c.off
    → starts_with (drop (off - c.misalign) (content c) ++ back) source ≡ (
        if starts_with (drop off c.mem) (take (compared c off source) source)
        then starts_with back (drop (compared c off source) source)
        else false)
starts_with_round c off back source l from upto =
    let len = length-onward c off l from upto in
    rw
      (starts_with_piece c off (take (compared c off source) source) l.chain from
        (omega (arith, length-take (compared c off source) source, l.chain)))
      (starts_with-split (drop (off - c.misalign) (content c)) back source (compared c off source)
        (omega (arith, len, l.chain)))

size_test : (c : Chain) → IsLive c → (size c == 0) ≡ false
size_test c l = ground (arith, l.nonempty)

suc_test : (n : ℕ) → (suc n == 0) ≡ false
suc_test n = ground arith

none_left : (n m : ℕ) → n ≤ m → (n - m == 0) ≡ true
none_left n m h = ground arith

-- The loop of `buffer_memcmp` from the byte `off` of a chain on.
compare_loop_lem :
    (c : Chain) (cs : List Chain) (off : ℕ) (source : List ℕ)
    → IsLive c
    → AllLive cs
    → c.misalign ≤ off
    → off ≤ c.off
    → length source ≤ length (drop (off - c.misalign) (content c) ++ contents cs)
    → compare_loop cs c off source
      ≡ starts_with (drop (off - c.misalign) (content c) ++ contents cs) source
unfolding compare_loop contents
compare_loop_lem c [] off [] l live from upto fits = rw (size_test c l) refl
compare_loop_lem c [] off (x ∷ source) l live from upto fits =
    let m = compared c off (x ∷ source) in
    let len = length-onward c off l from upto in
    let covered : length (x ∷ source) ≤ m =
      omega (arith, fits, len, length-append (drop (off - c.misalign) (content c)) [], l.chain) in
    rw
      (
        size_test c l,
        suc_test (length source),
        starts_with_round c off [] (x ∷ source) l from upto,
        none_left (length (x ∷ source)) m covered,
        drop_all m (x ∷ source) covered,
      )
      refl
compare_loop_lem c (d ∷ cs) off [] l live from upto fits = rw (size_test c l) refl
compare_loop_lem c (d ∷ cs) off (x ∷ source) l live from upto fits =
    let m = compared c off (x ∷ source) in
    let zero_start : d.misalign - d.misalign ≡ zero = omega arith in
    let ih : compare_loop cs d d.misalign (drop m (x ∷ source))
        ≡ starts_with (drop zero (content d) ++ contents cs) (drop m (x ∷ source)) =
      compare_loop_lem d cs d.misalign (drop m (x ∷ source)) live.0 live.1 (omega arith)
        (omega (arith, live.0.chain))
        (omega (
          arith,
          fits,
          length-onward c off l from upto,
          l.chain,
          length-drop m (x ∷ source),
          length-append (drop (off - c.misalign) (content c)) (content d ++ contents cs),
          length-append (content d) (contents cs),
          length-append (drop (d.misalign - d.misalign) (content d)) (contents cs),
          length-drop (d.misalign - d.misalign) (content d),
        ))
      ∙ ap (λ t. starts_with (drop t (content d) ++ contents cs) (drop m (x ∷ source)))
          zero_start in
    rw
      (
        size_test c l,
        suc_test (length source),
        starts_with_round c off (content d ++ contents cs) (x ∷ source) l from upto,
        ih,
      )
      refl

starts_with_short :
    (mem source : List ℕ) → length mem < length source → starts_with mem source ≡ false
starts_with_short mem [] h = absurd (omega arith)
starts_with_short [] (x ∷ source) h = refl
starts_with_short (y ∷ mem) (x ∷ source) h =
    let ih = starts_with_short mem source (omega arith) in
    elim (Bool-cases (y == x)) [ inl e ↦ rw e ih | inr e ↦ rw e refl ]

buffer_memcmp_lem :
    (id : ℕ) (b : Buffer) (it : Iter) (source : List ℕ)
    → IsPacked b
    → length (view b) < 2 ^ 64
    → Place id b it
    → buffer_memcmp id b (some source) it
      ≡ some (starts_with (drop it.offset_of_buffer (view b)) source)
unfolding buffer_memcmp
buffer_memcmp_lem id b it source packed_b small p =
    let f = Found-packed id b it packed_b p in
    let room : sub64 b.total it.offset_of_buffer ≡ length (view b) - it.offset_of_buffer =
      omega (arith, total_lem b packed_b, f.within) in
    elim (Bool-cases (ltb (length (view b) - it.offset_of_buffer) (length source))) [
      | inl long ↦
          let none_same =
            starts_with_short (drop it.offset_of_buffer (view b)) source
              (omega (arith, length-drop it.offset_of_buffer (view b), ltb→lt _ _ long)) in
          rw (f.valid, ◌>>=◌) (rw (room, long) (ap some (sym none_same)))
      | inr short ↦
          let fits : length source
              ≤ length (
                  drop (it.offset_of_chain - p.c.misalign) (content p.c)
                  ++ contents (drop (suc p.k) b.chains)) =
            omega (
              arith,
              ltb→le _ _ short,
              length-drop it.offset_of_buffer (view b),
              ap length f.rest,
            ) in
          rw (f.valid, ◌>>=◌)
            (rw (room, short)
              (rw (p.chain, ◌>>=◌)
                (rw (p.get, ◌>>=◌)
                  (ap some (
                    compare_loop_lem p.c (drop (suc p.k) b.chains) it.offset_of_chain source f.live
                      f.behind p.from p.upto fits
                    ∙ sym (ap (λ t. starts_with t source) f.rest))))))
    ]

-- buffer_memcmp at an iterator that is in a chain of a packed buffer, or behind the chain's last byte,
-- does not fault; it is true exactly when the bytes of the buffer from there on begin with those of the
-- block. This is for totals below 2 ^ 64.
pub buffer_memcmp-view :
    (id : ℕ) (b : Buffer) (it : Iter) (source : List ℕ)
    → IsPacked b
    → length (view b) < 2 ^ 64
    → Place id b it
    → (same : Bool) × (buffer_memcmp id b (some source) it ≡ some same)
      × ((same ≡ true) ↔ (take (length source) (drop it.offset_of_buffer (view b)) ≡ source))
buffer_memcmp-view id b it source packed_b small p = (
  starts_with (drop it.offset_of_buffer (view b)) source,
  buffer_memcmp_lem id b it source packed_b small p,
  starts_with_lem (drop it.offset_of_buffer (view b)) source,
)
