-- ===== src/Buffer/Copy/Out.antt =====
-- `copy_out_from` of src/reactor/buffer.cpp, and what a request for more bytes than there are does.
use unp.Base.{
  ℕ, suc, ◌+◌, ◌-◌, ◌^◌, ◌≤◌, ◌<◌, ◌≡◌, refl, sym, ap, ◌∙◌, true, false, Option, none, some, List,
  [], ◌∷◌, ◌++◌, arith, length, take, drop, length-append, length-take, length-drop, take_all, ltb,
  leb, ◌==◌, le→ltb, lt→ltb, le→leb, sub32, sub64, to_u32,
}
use unp.Buffer.Chain.{Chain, size, content, ◌>>=◌}
use unp.Buffer.Chain.Laws.{length-content}
use unp.Buffer.Store.{Buffer, empty}
use unp.Buffer.Packed.{contents, view, IsPacked, is_packed, is_empty, IsLive, AllLive, Front-packed}
use unp.Buffer.Write.Append.{total_lem}
use unp.Buffer.Read.{remove, remove_loop}
use unp.Buffer.Read.Remove.{remove-view}
use unp.Buffer.Iter.{Iter, validate_iter}
use unp.Buffer.Iter.Place.{Place, Found-packed}
use unp.Buffer.Copy.{copied_length, copy_from, copy_out_from, moves}
use unp.Buffer.Copy.Rounds.{with_back-packed, suc_test}
use unp.Buffer.Copy.From.{copy_from-view, copied_loop, copy_from_run}

copy_out_run :
    (id : ℕ) (b : Buffer) (n : ℕ) (it : Iter) (tmp tmp' : Buffer) (out : Option (List ℕ))
    → validate_iter id b it ≡ some true
    → 0 < n
    → copy_from id b n it ≡ some tmp
    → remove tmp false n ≡ some (tmp', out)
    → copy_out_from id b false n it ≡ some out
unfolding copy_out_from
copy_out_run id b n it tmp tmp' out valid positive e e' =
    let zero_test : (n == 0) ≡ false = ground arith in
    rw (valid, ◌>>=◌) (rw zero_test (rw (e, ◌>>=◌) (rw (e', ◌>>=◌) refl)))

-- copy_out_from of n bytes, at least one, from an iterator on that is at a byte of a chain of a packed
-- buffer with fewer than 2 ^ 32 bytes, of which n are left there, copies out just these bytes.
pub copy_out_from-view :
    (id : ℕ) (b : Buffer) (n : ℕ) (it : Iter)
    → IsPacked b
    → (p : Place id b it) → it.offset_of_chain < p.c.off
    → 0 < n
    → length (view b) < 2 ^ 32
    → it.offset_of_buffer + n ≤ length (view b)
    → copy_out_from id b false n it ≡ some (some (take n (drop it.offset_of_buffer (view b))))
copy_out_from-view id b n it packed_b p inside positive small fits =
    let wanted = take n (drop it.offset_of_buffer (view b)) in
    let (tmp, e, packed_tmp, bytes) =
      copy_from-view id b n it packed_b p inside positive small fits in
    let len : length (view tmp) ≡ n = omega (
      arith,
      ap length bytes,
      length-take n (drop it.offset_of_buffer (view b)),
      length-drop it.offset_of_buffer (view b),
    ) in
    let (tmp', e', packed', left) =
      remove-view tmp n packed_tmp positive (omega (arith, len)) (omega arith)
        (omega (arith, len)) in
    copy_out_run id b n it tmp tmp' (some (take n (view tmp)))
      (Found-packed id b it packed_b p).valid positive e e'
    ∙ ap (λ t. some (some t)) (take_all n (view tmp) (omega (arith, len)) ∙ bytes)

-- All that is left is what is copied where more is wanted.
copied_all :
    (other : Buffer) (n offset : ℕ)
    → IsPacked other
    → length (view other) < 2 ^ 32
    → offset ≤ length (view other)
    → length (view other) < offset + n
    → copied_length other n offset ≡ length (view other) - offset
copied_all other n offset p small starts short =
    let most : to_u32 (sub64 other.total offset) ≡ length (view other) - offset =
      omega (arith, total_lem other p) in
    rw (most, lt→ltb (length (view other) - offset) n (omega arith)) (omega arith)

-- A chain that is used up where more is wanted.
used_up :
    (c : Chain) (n : ℕ)
    → IsLive c
    → size c < n
    → n < 2 ^ 32
    → ((n == 0) ≡ false)
      × ((ltb c.off c.misalign) ≡ false)
      × ((leb (size c) n) ≡ true)
      × ((size c == 0) ≡ false)
      × (sub32 n (size c) ≡ n - size c)
      × ((n - size c == 0) ≡ false)
used_up c n l more word =
    let v = l.chain in
    (
      ground arith,
      le→ltb _ _ v.starts,
      le→leb _ _ (omega arith),
      ground (arith, l.nonempty),
      omega arith,
      ground arith,
    )

-- `remove` of more than the chains have.
remove_loop_short :
    (c : Chain) (cs : List Chain) (total n : ℕ) (out : List ℕ)
    → IsLive c
    → AllLive cs
    → n < 2 ^ 32
    → length (contents (c ∷ cs)) < n
    → remove_loop (c ∷ cs) (some (length cs)) total n out ≡ none
unfolding remove_loop contents
remove_loop_short c [] total n out l live word short =
    let (positive, starts, whole, nonempty, left, rest) =
      used_up c n l (omega (arith, length-content c l.chain, length-append (content c) [])) word in
    rw (positive, starts, whole, nonempty) (rw (left, rest) refl)
remove_loop_short c (d ∷ cs) total n out l live word short =
    let len = length-content c l.chain in
    let more : size c < n = omega (arith, len, length-append (content c) (contents (d ∷ cs))) in
    let (positive, starts, whole, nonempty, left, rest) = used_up c n l more word in
    rw (positive, starts, whole, nonempty, suc_test (length cs), left)
      (remove_loop_short d cs (sub64 total (size c)) (n - size c) (out ++ content c) live.0 live.1
        (omega arith) (omega (arith, len, length-append (content c) (contents (d ∷ cs)))))

remove_short :
    (b : Buffer) (n : ℕ)
    → IsPacked b
    → 0 < length (view b)
    → n < 2 ^ 32
    → length (view b) < n
    → remove (record b { total = n }) false n ≡ none
unfolding remove contents
remove_short b n is_empty positive word short = absurd (omega (arith, positive))
remove_short b n (is_packed full lc live l) positive word short =
    let f = Front-packed full lc live l in
    let zero_test : (n == 0) ≡ false = ground arith in
    rw (zero_test, le→ltb n n (omega arith))
      (rw (f.split, f.count)
        (rw
          (
            remove_loop_short f.front f.behind n n [] f.live f.behind_live word
                (omega (arith, ap (λ cs. length (contents cs)) f.split)),
            ◌>>=◌,
          )
          refl))

-- Where fewer bytes are left than are asked for, all of them are copied, but the total is what was asked for.
pub copy_from_overlong :
    (id : ℕ) (other : Buffer) (n : ℕ) (it : Iter)
    → IsPacked other
    → (p : Place id other it) → it.offset_of_chain < p.c.off
    → n < 2 ^ 32
    → length (view other) < 2 ^ 32
    → length (view other) < it.offset_of_buffer + n
    → (b : Buffer) × (copy_from id other n it ≡ some (record b { total = n }))
      × IsPacked b
      × (view b ≡ drop it.offset_of_buffer (view other))
      × (0 < length (view b))
      × (length (view b) < n)
unfolding contents
copy_from_overlong id other n it packed_other p inside word small short =
    let f = Found-packed id other it packed_other p in
    let bytes_left = drop it.offset_of_buffer (view other) in
    let some_left : 0 < length bytes_left = omega (
      arith,
      ap length f.rest,
      length-append (drop (it.offset_of_chain - p.c.misalign) (content p.c))
          (contents (drop (suc p.k) other.chains)),
      length-drop (it.offset_of_chain - p.c.misalign) (content p.c),
      length-content p.c f.live.chain,
      f.live.chain,
      inside,
      p.from,
    ) in
    let (b, e, g) =
      copied_loop id moves other it packed_other p inside (length bytes_left) empty is_empty
        some_left (omega (arith, length-drop it.offset_of_buffer (view other))) (omega arith)
        (omega (arith, length-drop it.offset_of_buffer (view other))) in
    let bytes : view b ≡ bytes_left =
      g.bytes ∙ take_all (length bytes_left) bytes_left (omega arith) in
    let asked : copied_length other n it.offset_of_buffer ≡ length bytes_left =
      copied_all other n it.offset_of_buffer packed_other small
        (omega (arith, length-drop it.offset_of_buffer (view other))) short
      ∙ sym (length-drop it.offset_of_buffer (view other)) in
    (
      b,
      copy_from_run id other n it packed_other p inside
          (omega (arith, length-drop it.offset_of_buffer (view other), some_left)) b
          (record b { total = n }) (rw asked e)
          (ap (λ (t : Buffer). record t { total = n })
            (with_back-packed b g.shape (omega (arith, ap length bytes, some_left)))),
      g.shape,
      bytes,
      omega (arith, ap length bytes),
      omega (arith, ap length bytes, length-drop it.offset_of_buffer (view other)),
    )

-- The bytes are then removed in a loop that goes past the last chain.
pub copy_out_from_overlong :
    (id : ℕ) (b : Buffer) (n : ℕ) (it : Iter)
    → IsPacked b
    → (p : Place id b it) → it.offset_of_chain < p.c.off
    → n < 2 ^ 32
    → length (view b) < 2 ^ 32
    → length (view b) < it.offset_of_buffer + n
    → copy_out_from id b false n it ≡ none
unfolding copy_out_from
copy_out_from_overlong id b n it packed_b p inside word small short =
    let (tmp, e, packed_tmp, bytes, positive, few) =
      copy_from_overlong id b n it packed_b p inside word small short in
    let zero_test : (n == 0) ≡ false = ground arith in
    rw ((Found-packed id b it packed_b p).valid, ◌>>=◌)
      (rw zero_test
        (rw (e, ◌>>=◌) (rw (remove_short tmp n packed_tmp positive word few, ◌>>=◌) refl)))
