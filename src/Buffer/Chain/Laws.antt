-- ===== src/Buffer/Chain/Laws.antt =====
-- What the copies of src/reactor/buffer.cpp do to the bytes of one chain.
use unp.Base.{
  ℕ, ◌+◌, ◌-◌, ◌^◌, ◌≤◌, ◌<◌, ◌≡◌, refl, ap, ◌∙◌, inl, inr, some, List, [], ◌++◌, arith, length,
  take, drop, drop-take, drop-drop, take-take, length-take, length-drop, length-replicate, splice,
  length-splice, window-splice, ltb, Bool-cases, le→leb, ltb→lt, ltb→le, add32, ==-eq, ◌==◌,
}
use unp.Buffer.Chain.{
  Chain, size, content, chain_free_space, calloc, calculate_actual_capacity, new_chain, copy_in,
  start_bytes, copy_chain, assign, realloc, ◌>>=◌, default_chain_size,
}
use unp.Buffer.Chain.Capacity.{calculate_fits}

-- The chain's numbers describe its block: the bytes in use lie in it.
pub record IsChain (c : Chain) : Type 0 where
  pub starts : c.misalign ≤ c.off
  pub ends : c.off ≤ c.capacity
  pub block : length c.mem ≡ c.capacity
  pub word : c.capacity < 2 ^ 32

pub size_lem : (c : Chain) → IsChain c → size c ≡ c.off - c.misalign
size_lem c v = omega arith

pub free_lem : (c : Chain) → IsChain c → chain_free_space c ≡ c.capacity - c.off
free_lem c v = omega arith

pub length-content : (c : Chain) → IsChain c → length (content c) ≡ size c
unfolding content
length-content c v =
    omega (
      arith,
      length-take (c.off - c.misalign) (drop c.misalign c.mem),
      length-drop c.misalign c.mem,
    )

-- `c'` is `c` with the bytes `bs` behind its own.
pub record Appended (c : Chain) (bs : List ℕ) (c' : Chain) : Type 0 where
  pub valid : IsChain c'
  pub bytes : content c' ≡ content c ++ bs
  pub off : c'.off ≡ c.off + length bs
  pub capacity : c'.capacity ≡ c.capacity

abbrev copied : Chain → List ℕ → Chain
copied c bs = record c { mem = splice c.mem c.off bs; off = add32 c.off (length bs) }

copied-Appended :
    (c : Chain) (bs : List ℕ)
    → IsChain c
    → c.off + length bs ≤ c.capacity
    → Appended c bs (copied c bs)
unfolding content
copied-Appended c bs v h = record {
  valid = record {
    starts = omega arith;
    ends = omega arith;
    block = length-splice c.mem c.off bs (omega arith) ∙ v.block;
    word = v.word;
  };
  bytes = rw sum (window-splice c.mem c.misalign c.off bs v.starts (omega arith));
  off = sum;
  capacity = refl;
}
  where
    sum : add32 c.off (length bs) ≡ c.off + length bs
    sum = omega arith

-- A copy that fits the block does not fault, and puts the bytes behind those of the chain.
pub copy_in_fits :
    (c : Chain) (bs : List ℕ)
    → IsChain c
    → c.off + length bs ≤ c.capacity
    → (c' : Chain) × (copy_in c bs ≡ some c') × Appended c bs c'
unfolding copy_in
copy_in_fits c bs v h = (copied c bs, rw (le→leb _ _ h), copied-Appended c bs v h)

abbrev blank : ℕ → Chain
blank cap = record { mem = calloc cap; capacity = cap; off = 0; misalign = 0 }

blank-IsChain : (cap : ℕ) → cap < 2 ^ 32 → IsChain (blank cap)
unfolding calloc
blank-IsChain cap h = record {
  starts = omega arith;
  ends = omega arith;
  block = length-replicate cap 0;
  word = h;
}

content-blank :
    (mem : List ℕ) (cap : ℕ)
    → content (record { mem = mem; capacity = cap; off = 0; misalign = 0 }) ≡ []
unfolding content
content-blank mem cap = refl

-- What a chain of a requested capacity is: empty, and large enough.
pub record Room (n : ℕ) (c : Chain) : Type 0 where
  pub valid : IsChain c
  pub no_bytes : content c ≡ []
  pub off : c.off ≡ 0
  pub enough : n ≤ c.capacity

pub new_chain-Room : (n : ℕ) → n < 2 ^ 32 → Room n (new_chain n)
unfolding new_chain
new_chain-Room n h = elim (Bool-cases (n == 0)) [
  | inl e ↦ rw e (record {
    valid = blank-IsChain default_chain_size (omega arith);
    no_bytes = content-blank _ _;
    off = refl;
    enough = omega (arith, ==-eq n 0 e);
  })
  | inr e ↦ rw e (record {
    valid = blank-IsChain (calculate_actual_capacity n) (calculate_fits n h).1;
    no_bytes = content-blank _ _;
    off = refl;
    enough = (calculate_fits n h).0;
  })
]

pub start_bytes_lem : (c : Chain) → IsChain c → start_bytes c ≡ some (content c)
unfolding start_bytes
start_bytes_lem c v = rw (le→leb _ _ v.starts)

-- `realloc(n)` of a well-formed chain whose bytes are at most n, for n below 2 ^ 32, does not fault:
-- the chain stays well formed and keeps its bytes, its capacity is then at least n and not below the
-- old one, and `off_` does not grow.
pub realloc_lem :
    (c : Chain) (n : ℕ)
    → IsChain c
    → size c ≤ n
    → n < 2 ^ 32
    → (c' : Chain) × (realloc c n ≡ some c')
      × IsChain c'
      × (content c' ≡ content c)
      × (n ≤ c'.capacity)
      × (c'.off ≤ c.off)
      × (c.capacity ≤ c'.capacity)
unfolding realloc
realloc_lem c n v h w = elim (Bool-cases (ltb c.capacity n)) [
  | inl grows ↦
      let (c', e, a) =
        copy_in_fits (blank n) (content c) (blank-IsChain n w)
          (omega (arith, length-content c v)) in
      (
        c',
        rw (grows, start_bytes_lem c v) e,
        a.valid,
        a.bytes ∙ ap (λ t. t ++ content c) (content-blank _ _),
        omega (arith, a.capacity),
        omega (arith, a.off, length-content c v, size_lem c v),
        omega (arith, a.capacity, ltb→lt _ _ grows),
      )
  | inr keeps ↦ (c, rw keeps, v, refl, ltb→le _ _ keeps, omega arith, omega arith)
]

-- The copy constructor of a well-formed chain does not fault: the copy is well formed, has the same
-- bytes from the front of the block, and its capacity is not below the other's.
pub copy_chain_lem :
    (other : Chain)
    → IsChain other
    → (c' : Chain) × (copy_chain other ≡ some c')
      × IsChain c'
      × (content c' ≡ content other)
      × (c'.off ≡ size other)
      × (other.capacity ≤ c'.capacity)
unfolding copy_chain
copy_chain_lem other v =
    let fits = calculate_fits other.capacity v.word in
    let cap = calculate_actual_capacity other.capacity in
    let len = length-content other v in
    let (c', e, a) =
      copy_in_fits (blank cap) (content other) (blank-IsChain cap fits.1)
        (omega (arith, len, fits.0)) in
    (
      c',
      rw (start_bytes_lem other v) e,
      a.valid,
      a.bytes ∙ ap (λ t. t ++ content other) (content-blank _ _),
      omega (arith, a.off, len),
      omega (arith, a.capacity, fits.0),
    )

-- `operator=` between well-formed chains does not fault: the result is well formed, has the other's
-- bytes from the front of the block, and its capacity is not below the old one.
pub assign_lem :
    (c other : Chain)
    → IsChain c
    → IsChain other
    → (c' : Chain) × (assign c other ≡ some c')
      × IsChain c'
      × (content c' ≡ content other)
      × (c'.off ≡ size other)
      × (c.capacity ≤ c'.capacity)
unfolding assign
assign_lem c other u v = elim (Bool-cases (ltb c.capacity other.capacity)) [
  | inl grows ↦ rw grows (
      put (calloc other.capacity) other.capacity (blank-IsChain other.capacity v.word)
        (omega (arith, ltb→lt _ _ grows)) (omega arith))
  | inr keeps ↦ rw keeps (
      put c.mem c.capacity
        (record { starts = omega arith; ends = omega arith; block = u.block; word = u.word })
        (omega arith) (ltb→le _ _ keeps))
]
  where
    put :
        (mem : List ℕ) (cap : ℕ)
        → IsChain (record { mem = mem; capacity = cap; off = 0; misalign = 0 })
        → c.capacity ≤ cap
        → other.capacity ≤ cap
        → (c' : Chain) × ((start_bytes other
              >>= copy_in (record { mem = mem; capacity = cap; off = 0; misalign = 0 }))
            ≡ some c')
          × IsChain c'
          × (content c' ≡ content other)
          × (c'.off ≡ size other)
          × (c.capacity ≤ c'.capacity)
    put mem cap w h k =
        let len = length-content other v in
        let (c', e, a) =
          copy_in_fits (record { mem = mem; capacity = cap; off = 0; misalign = 0 }) (content other)
            w (omega (arith, len)) in
        (
          c',
          rw (start_bytes_lem other v) e,
          a.valid,
          a.bytes ∙ ap (λ t. t ++ content other) (content-blank _ _),
          omega (arith, a.off, len),
          omega (arith, a.capacity),
        )

-- Bytes of the block are bytes in use, from a place among them on.
pub window_of :
    (c : Chain) (n pos : ℕ)
    → IsChain c
    → c.misalign ≤ pos
    → n ≤ c.off - pos
    → take n (drop pos c.mem) ≡ take n (drop (pos - c.misalign) (content c))
unfolding content
window_of c n pos v from fits =
    let e : c.misalign + (pos - c.misalign) ≡ pos = omega arith in
    rw (
      drop-take (pos - c.misalign) (c.off - c.misalign) (drop c.misalign c.mem),
      drop-drop (pos - c.misalign) c.misalign c.mem,
      e,
      take-take n (c.off - c.misalign - (pos - c.misalign)) (drop pos c.mem) (omega arith),
    )
