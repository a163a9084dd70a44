-- ===== src/Buffer/Iter/Forward.antt =====
-- `operator+` of `buffer_iter` (src/reactor/buffer.cpp), and `begin()`: the places that they give.
use unp.Base.{
  ℕ, suc, ◌+◌, ◌-◌, ◌≤◌, ◌<◌, ◌^◌, ◌≡◌, refl, ap, ◌∙◌, false, some, [], ◌∷◌, ◌++◌, arith, length,
  drop, get_elem?, length-append, length-drop, ltb, ◌==◌, le→ltb, add64, sub32, sub64, to_u32,
}
use unp.Buffer.Chain.{Chain, content, ◌>>=◌}
use unp.Buffer.Chain.Laws.{length-content}
use unp.Buffer.Store.{Buffer}
use unp.Buffer.Packed.{contents, view, IsPacked, is_packed, is_empty, Front-packed}
use unp.Buffer.Write.Append.{total_lem}
use unp.Buffer.Iter.{Iter, begin_iter, forward_loop, forward}
use unp.Buffer.Iter.Place.{Place, Found-packed}
use unp.Buffer.Iter.Steps.{Flush, passed, forward_loop_lem}

forward_run :
    (b : Buffer) (it it' : Iter) (steps k : ℕ) (c : Chain) (can most : ℕ)
    → (steps == 0) ≡ false
    → to_u32 (sub64 b.total it.offset_of_buffer) ≡ most
    → ltb most steps ≡ false
    → it.chain ≡ some k
    → get_elem? b.chains k ≡ some c
    → sub32 c.off it.offset_of_chain ≡ can
    → forward_loop b (drop (suc k) b.chains) k it can steps ≡ some it'
    → forward b it steps ≡ some (passed it' (add64 it.offset_of_buffer steps))
unfolding forward
forward_run b it it' steps k c can most some_steps room enough chain get left e =
    rw (some_steps, room, enough) (simp chain (rw get (rw (left, e) refl)))

-- An iterator that is in a chain of a packed buffer with fewer than 2 ^ 32 bytes, and is moved forward
-- by at least one and at most the bytes left, in a buffer whose later chains have no free part in
-- front, is then in a chain or behind its last byte, at the byte of the buffer that many steps further.
pub forward-Place :
    (id : ℕ) (b : Buffer) (it : Iter) (steps : ℕ)
    → IsPacked b
    → (p : Place id b it) → Flush (drop (suc p.k) b.chains)
    → 0 < steps
    → length (view b) < 2 ^ 32
    → it.offset_of_buffer + steps ≤ length (view b)
    → (it' : Iter) × (forward b it steps ≡ some it')
      × Place id b it'
      × (it'.offset_of_buffer ≡ it.offset_of_buffer + steps)
forward-Place id b it steps packed_b p flush positive small fits =
    let f = Found-packed id b it packed_b p in
    let can = p.c.off - it.offset_of_chain in
    let (it', e, q) =
      forward_loop_lem id b (drop (suc p.k) b.chains) it it.offset_of_buffer can steps packed_b p
        refl flush refl
        (omega (
          arith,
          ap length f.rest,
          length-drop it.offset_of_buffer (view b),
          length-append (drop (it.offset_of_chain - p.c.misalign) (content p.c))
              (contents (drop (suc p.k) b.chains)),
          length-drop (it.offset_of_chain - p.c.misalign) (content p.c),
          length-content p.c f.live.chain,
          f.live.chain,
          p.from,
          p.upto,
          fits,
        ))
        (omega arith) in
    let sum : add64 it.offset_of_buffer steps ≡ it.offset_of_buffer + steps = omega arith in
    (
      passed it' (it.offset_of_buffer + steps),
      forward_run b it it' steps p.k p.c can (length (view b) - it.offset_of_buffer) (ground arith)
            (omega (arith, total_lem b packed_b, f.within)) (le→ltb _ _ (omega arith)) p.chain p.get
            (omega (arith, f.live.chain, p.upto)) e
          ∙ ap (λ n. some (passed it' n)) sum,
      q,
      refl,
    )

-- `begin()` is at the first byte.
pub begin_iter-Place :
    (id : ℕ) (b : Buffer)
    → IsPacked b
    → 0 < length (view b)
    → (it : Iter) × (begin_iter id b ≡ some it)
      × (p : Place id b it) × (it.offset_of_chain < p.c.off)
      × (it.offset_of_buffer ≡ 0)
unfolding begin_iter contents
begin_iter-Place id b is_empty positive = absurd (omega (arith, positive))
begin_iter-Place id b (is_packed full lc live l) positive =
    let f = Front-packed full lc live l in
    let get : get_elem? (full ++ lc ∷ []) 0 ≡ some f.front = ap (λ cs. get_elem? cs 0) f.split in
    (
      record {
        buffer = some id;
        chain = some 0;
        offset_of_buffer = 0;
        chain_number = 0;
        offset_of_chain = f.front.misalign;
      },
      rw (get, ◌>>=◌) refl,
      record {
        k = 0;
        c = f.front;
        buffer = refl;
        chain = refl;
        get = get;
        from = omega arith;
        upto = omega (arith, f.live.chain);
        offset = omega arith;
      },
      omega (arith, f.live),
      refl,
    )
