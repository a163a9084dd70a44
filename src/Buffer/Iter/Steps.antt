-- ===== src/Buffer/Iter/Steps.antt =====
-- The loop of `operator+` of `buffer_iter` (src/reactor/buffer.cpp).
use unp.Base.{
  ℕ, zero, suc, ◌+◌, ◌-◌, ◌≤◌, ◌<◌, ◌^◌, ◌≡◌, refl, sym, subst, ap, ◌∙◌, inl, inr, true, false,
  Bool-cases, some, none-ne-some, some-injective, List, [], ◌∷◌, ◌++◌, arith, length, take, drop,
  get_elem?, length-append, length-drop, drop-drop, ltb, ◌==◌, ltb→lt, ltb→le, sub32,
}
use unp.Buffer.Chain.{Chain, content}
use unp.Buffer.Chain.Laws.{length-content}
use unp.Buffer.Store.{Buffer, is_last_chain_with_data}
use unp.Buffer.Packed.{contents, contents_snoc, IsPacked, is_packed, is_empty, length_snoc}
use unp.Buffer.Iter.{Iter, arrived, forward_loop}
use unp.Buffer.Iter.Place.{Place, Found-packed}

-- No chain has a free part in front of its bytes.
abbrev pub Flush : List Chain → Type 0
Flush [] = Unit {0}
Flush (c ∷ cs) = (c.misalign ≡ 0) × Flush cs

module _ {ℓ} {A : Type ℓ} where
  get_drop :
      (xs : List A) (n : ℕ) (y : A) (ys : List A) → drop n xs ≡ y ∷ ys → get_elem? xs n ≡ some y
  get_drop [] zero y ys e = absurd (omega (arith, ap length e))
  get_drop [] (suc n) y ys e = absurd (omega (arith, ap length e))
  get_drop (x ∷ xs) zero y ys e = ap (λ l. get_elem? l 0) e
  get_drop (x ∷ xs) (suc n) y ys e = get_drop xs n y ys e

  take_get :
      (xs : List A) (n : ℕ) (y : A)
      → get_elem? xs n ≡ some y
      → take (suc n) xs ≡ take n xs ++ y ∷ []
  take_get [] n y e = absurd (none-ne-some y e)
  take_get (x ∷ xs) zero y e = ap (λ t. t ∷ []) (some-injective _ _ e)
  take_get (x ∷ xs) (suc n) y e = ap (◌∷◌ x) (take_get xs n y e)

-- The iterator as it counts once it has passed `o` bytes of the buffer.
abbrev pub passed : Iter → ℕ → Iter
passed it o = record it { offset_of_buffer = o }

abbrev turned : Iter → ℕ → Iter
turned it k = record it {
  chain = some (suc k);
  chain_number = suc it.chain_number;
  offset_of_chain = 0;
}

-- A step over the end of a chain leads to the front of the next one.
turned-Place :
    (id : ℕ) (b : Buffer) (it : Iter) (o : ℕ) (d : Chain) (ds : List Chain)
    → IsPacked b
    → (p : Place id b (passed it o)) → drop (suc p.k) b.chains ≡ d ∷ ds
    → d.misalign ≡ 0
    → Place id b (passed (turned it p.k) (o + (p.c.off - it.offset_of_chain)))
turned-Place id b it o d ds packed_b p behind flush =
    let f = Found-packed id b (passed it o) packed_b p in
    record {
      k = suc p.k;
      c = d;
      buffer = p.buffer;
      chain = refl;
      get = get_drop b.chains (suc p.k) d ds behind;
      from = omega arith;
      upto = omega arith;
      offset = omega (
        arith,
        p.offset,
        p.from,
        p.upto,
        ap (λ cs. length (contents cs)) (take_get b.chains p.k p.c p.get),
        ap length (contents_snoc (take p.k b.chains) p.c),
        length-append (contents (take p.k b.chains)) (content p.c),
        length-content p.c f.live.chain,
        f.live.chain,
      );
    }

get_within : (xs : List Chain) (n : ℕ) (y : Chain) → get_elem? xs n ≡ some y → n < length xs
get_within [] n y e = absurd (none-ne-some y e)
get_within (x ∷ xs) zero y e = omega arith
get_within (x ∷ xs) (suc n) y e = omega (arith, get_within xs n y e)

last_test :
    (b : Buffer) (k : ℕ) (c : Chain)
    → IsPacked b
    → get_elem? b.chains k ≡ some c
    → is_last_chain_with_data b (some k) ≡ (length (drop (suc k) b.chains) == 0)
unfolding is_last_chain_with_data
last_test b k c is_empty get = absurd (none-ne-some c get)
last_test b k c (is_packed full lc live l) get = ground (
  arith,
  get_within (full ++ lc ∷ []) k c get,
  length_snoc full lc,
  length-drop (suc k) (full ++ lc ∷ []),
)

-- A step within a chain.
arrived-Place :
    (id : ℕ) (b : Buffer) (it : Iter) (o remain : ℕ)
    → IsPacked b
    → (p : Place id b (passed it o)) → remain ≤ p.c.off - it.offset_of_chain
    → Place id b (passed (arrived it remain) (o + remain))
arrived-Place id b it o remain packed_b p inside =
    let f = Found-packed id b (passed it o) packed_b p in
    record {
      k = p.k;
      c = p.c;
      buffer = p.buffer;
      chain = p.chain;
      get = p.get;
      from = omega (arith, p.from, f.live.chain, p.upto, inside);
      upto = omega (arith, p.upto, f.live.chain, inside);
      offset = omega (arith, p.offset, p.from, p.upto, f.live.chain, inside);
    }

suc_test : (n : ℕ) → (suc n == 0) ≡ false
suc_test n = ground arith

forward_round :
    (b : Buffer) (d : Chain) (ds : List Chain) (k : ℕ) (it it' : Iter) (can remain left : ℕ)
    → is_last_chain_with_data b (some k) ≡ false
    → ltb can remain ≡ true
    → sub32 remain can ≡ left
    → forward_loop b ds (suc k) (turned it k) d.off left ≡ some it'
    → forward_loop b (d ∷ ds) k it can remain ≡ some it'
unfolding forward_loop
forward_round b d ds k it it' can remain left inner more same e = rw (inner, more, same) e

-- The loop of `operator+`.
pub forward_loop_lem :
    (id : ℕ) (b : Buffer) (cs : List Chain) (it : Iter) (o can remain : ℕ)
    → IsPacked b
    → (p : Place id b (passed it o)) → drop (suc p.k) b.chains ≡ cs
    → Flush cs
    → can ≡ p.c.off - it.offset_of_chain
    → remain ≤ can + length (contents cs)
    → remain < 2 ^ 32
    → (it' : Iter) × (forward_loop b cs p.k it can remain ≡ some it')
      × Place id b (passed it' (o + remain))
unfolding forward_loop contents turned-Place
forward_loop_lem id b [] it o can remain packed_b p behind flush same fits word = (
  arrived it remain,
  rw (last_test b p.k p.c packed_b p.get, behind) refl,
  arrived-Place id b it o remain packed_b p (omega (arith, fits, same)),
)
forward_loop_lem id b (d ∷ ds) it o can remain packed_b p behind flush same fits word =
    let inner : is_last_chain_with_data b (some p.k) ≡ false =
      last_test b p.k p.c packed_b p.get
      ∙ ap (λ cs. length cs == 0) behind
      ∙ suc_test (length ds) in
    elim (Bool-cases (ltb can remain)) [
      | inr stop ↦ (
        arrived it remain,
        rw (inner, stop) refl,
        arrived-Place id b it o remain packed_b p (omega (arith, ltb→le can remain stop, same)),
      )
      | inl more ↦
          let less = ltb→lt can remain more in
          let q = turned-Place id b it o d ds packed_b p behind flush.0 in
          let index : suc p.k + 1 ≡ suc (suc p.k) = omega arith in
          let behind' : drop (suc (suc p.k)) b.chains ≡ ds =
            ap (λ n. drop n b.chains) (sym index)
            ∙ sym (drop-drop 1 (suc p.k) b.chains)
            ∙ ap (drop 1) behind in
          let live_d = (Found-packed id b _ packed_b q).live in
          let (it', e, r) =
            forward_loop_lem id b ds (turned it p.k) (o + (p.c.off - it.offset_of_chain)) d.off
              (remain - can) packed_b q behind' flush.1 (omega arith)
              (omega (
                arith,
                fits,
                less,
                length-append (content d) (contents ds),
                length-content d live_d.chain,
                live_d.chain,
                flush.0,
              ))
              (omega arith) in
          (
            it',
            forward_round b d ds p.k it it' can remain (remain - can) inner more
                (omega (arith, less, word)) e,
            subst (λ n. Place id b (passed it' n)) (omega (arith, same, less)) r,
          )
    ]
