-- ===== src/Buffer/Write/Printf.antt =====
-- `append_printf` (src/reactor/buffer.cpp): short output is appended, long output on an empty buffer makes
-- the loop go round for ever.
use unp.Base.{
  ℕ, zero, suc, ◌+◌, ◌-◌, ◌^◌, ◌≤◌, ◌<◌, ◌≡◌, refl, sym, ap, ◌∙◌, Option, some, none, List, [], ◌∷◌,
  ◌++◌, arith, length, length-append, take, drop, splice, ◌==◌, false, lt→ltb, le→ltb, take_all,
  take-append_left, take-take, window-splice, length-splice, append_assoc, add32,
}
use unp.Buffer.Chain.{
  Chain, content, chain_free_space, new_chain, calculate_actual_capacity, grow_capacity,
}
use unp.Buffer.Chain.Laws.{IsChain, length-content}
use unp.Buffer.Chain.Append.{Holds}
use unp.Buffer.Store.{Buffer, empty, expand_if_needed, push_front, shift}
use unp.Buffer.Store.Expand.{expand_if_needed-Expanded}
use unp.Buffer.Write.{running, returned, print_into, print_loop, append_printf}
use unp.Buffer.Write.Append.{filled_lem, view_filled, filled-IsLive, Expanded-get}
use unp.Buffer.Packed.{view, packed, IsPacked, is_packed, get_last, set_last, length_snoc}

printed_chain : Chain → List ℕ → Chain
printed_chain c text = record (print_into c text) { off = add32 c.off (length text) }

-- The NUL stands behind the bytes in use, which are the old ones and the text.
printed-Holds :
    (c : Chain) (text : List ℕ)
    → IsChain c
    → length text < chain_free_space c
    → Holds c text (printed_chain c text)
unfolding printed_chain print_into content
printed-Holds c text v h =
    let t : (chain_free_space c == 0) ≡ false = ground arith in
    let cut : take (chain_free_space c - 1) text ≡ text = take_all _ text (omega arith) in
    let o : add32 c.off (length text) ≡ c.off + length text = omega (arith, v) in
    rw (t, cut, o)
      (record {
        valid = record {
          starts = omega (arith, v);
          ends = omega (arith, v);
          block =
              length-splice c.mem c.off (text ++ 0 ∷ [])
                (omega (arith, v, length-append text (0 ∷ [])))
              ∙ v.block;
          word = v.word;
        };
        bytes = read_back;
      })
  where
    spliced : List ℕ
    spliced = drop c.misalign (splice c.mem c.off (text ++ 0 ∷ []))

    old : List ℕ
    old = take (c.off - c.misalign) (drop c.misalign c.mem)

    old_length : length old ≡ c.off - c.misalign
    old_length = unfold content in length-content c v ∙ omega (arith, v)

    read_back : take (c.off + length text - c.misalign) spliced ≡ old ++ text
    read_back =
        sym (
          take-take (c.off + length text - c.misalign)
            (c.off + length (text ++ 0 ∷ []) - c.misalign) spliced
            (omega (arith, length-append text (0 ∷ []))))
        ∙ ap (take (c.off + length text - c.misalign))
            (window-splice c.mem c.misalign c.off (text ++ 0 ∷ []) v.starts (omega (arith, v)))
        ∙ ap (take (c.off + length text - c.misalign)) (sym (append_assoc old text (0 ∷ [])))
        ∙ take-append_left (c.off + length text - c.misalign) (old ++ text) (0 ∷ [])
            (omega (arith, joined))
        ∙ take_all (c.off + length text - c.misalign) (old ++ text) (omega (arith, joined))
      where
        joined : length (old ++ text) ≡ c.off + length text - c.misalign
        joined = omega (arith, length-append old text, old_length, v)

-- Output of 1 to 63 bytes is printed to a packed buffer in the first round: its length is returned, the
-- buffer stays packed, and its view is the old one with the output behind it. This is for totals below
-- 2 ^ 64.
pub append_printf-view :
    (fuel : ℕ) (b : Buffer) (text : List ℕ)
    → IsPacked b
    → 0 < length text
    → length text < 64
    → length (view b) + length text < 2 ^ 64
    → (b' : Buffer) × (append_printf (suc fuel) b (some text) ≡ returned b' (some (length text)))
      × IsPacked b'
      × (view b' ≡ view b ++ text)
unfolding append_printf print_loop
append_printf-view fuel b text p some_text short small =
    let (b1, i, e, r) = expand_if_needed-Expanded b 64 p (omega arith) in
    let fits : length text < chain_free_space r.c = omega (arith, r.room, r.chain) in
    let h = printed-Holds r.c text r.chain fits in
    let c' = printed_chain r.c text in
    (
      packed r.full c',
      rw (e, append_printf)
          (rw (Expanded-get p r, print_loop)
            (rw (lt→ltb _ _ fits, print_loop)
              (unfold printed_chain in
                ap (λ t. returned t (some (length text)))
                  (filled_lem p r c' text h (length text) refl small)))),
      is_packed r.full c' r.live (filled-IsLive p r c' text h some_text),
      view_filled p r c' text h,
    )

printed_free :
    (c : Chain) (text : List ℕ) → chain_free_space (print_into c text) ≡ chain_free_space c
unfolding print_into
printed_free c text = ground arith

-- While a buffer has no data, `expand_if_needed` puts each new chain in front and gives back the last one.
expand_no_data :
    (cs : List Chain) (c : Chain) (last : Option ℕ) (n : ℕ)
    → expand_if_needed (record { chains = cs ++ c ∷ []; last = last; total = 0 }) n
      ≡ some (
        record { chains = (new_chain n ∷ cs) ++ c ∷ []; last = shift last; total = 0 },
        length (new_chain n ∷ cs),
      )
unfolding expand_if_needed push_front
expand_no_data cs c last n = rw (length_snoc cs c) refl

stuck :
    (fuel : ℕ) (cs : List Chain) (c : Chain) (last : Option ℕ) (text : List ℕ)
    → chain_free_space c ≤ length text
    → print_loop fuel (record { chains = cs ++ c ∷ []; last = last; total = 0 }) (length cs) text
      ≡ running
unfolding print_loop
stuck zero cs c last text h = refl
stuck (suc fuel) cs c last text h =
    rw (get_last cs c, print_loop)
      (rw (le→ltb _ _ h, print_loop)
        (rw (set_last cs c (print_into c text), print_loop)
          (rw (expand_no_data cs (print_into c text) last (add32 (length text) 1), print_loop)
            (stuck fuel (new_chain (add32 (length text) 1) ∷ cs) (print_into c text) (shift last)
              text (omega (arith, printed_free c text))))))

-- On an empty buffer output of 1024 bytes or more is never appended: whatever number of rounds the loop
-- is given, it is still running.
pub append_printf_diverges :
    (fuel : ℕ) (text : List ℕ) → 1024 ≤ length text → append_printf fuel empty (some text) ≡ running
unfolding append_printf
append_printf_diverges fuel text h =
    unfold expand_if_needed push_front in
    stuck fuel [] (new_chain 64) none text (omega (arith, first_free))
  where
    first_free : chain_free_space (new_chain 64) ≡ 1024
    first_free = unfold new_chain calculate_actual_capacity grow_capacity in refl
