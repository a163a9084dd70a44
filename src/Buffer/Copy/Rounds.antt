-- ===== src/Buffer/Copy/Rounds.antt =====
-- What the loops that copy a part of a buffer (src/reactor/buffer.cpp) share: a part of one chain, and one round.
use unp.Base.{
  ℕ, zero, suc, ◌+◌, ◌-◌, ◌^◌, ◌≤◌, ◌<◌, ◌≡◌, refl, sym, subst, ap, ◌∙◌, inl, inr, Bool-cases,
  Option, some, List, [], ◌∷◌, ◌++◌, arith, length, take, drop, length-append, append_assoc,
  length-take, length-drop, take-append, take-append_left, ltb, ◌==◌, true, false, le→ltb, lt→ltb,
  le→leb, ltb→lt, ltb→le, sub32, append-nil,
}
use unp.Buffer.Chain.{Chain, size, content, sub_chain, validate_iter, new_chain, ◌>>=◌}
use unp.Buffer.Chain.Laws.{IsChain, length-content, copy_in_fits, new_chain-Room, window_of}
use unp.Buffer.Store.{Buffer}
use unp.Buffer.Packed.{contents, view, IsPacked, is_packed, is_empty, IsLive, length_snoc}
use unp.Buffer.Write.Append.{append_chain-view, append_moved-view, total_lem}
use unp.Buffer.Copy.{with_back, Ending, moves, copies, append_last}

-- A part of a chain with data: at least one byte, from a place inside the chain on.
pub sub_chain_lem :
    (c : Chain) (n pos : ℕ)
    → IsChain c
    → c.misalign ≤ pos
    → 0 < n
    → n ≤ c.off - pos
    → (part : Chain) × (sub_chain c n true pos ≡ some part)
      × IsLive part
      × (content part ≡ take n (drop (pos - c.misalign) (content c)))
unfolding sub_chain validate_iter
sub_chain_lem c n pos v from positive fits =
    let r = new_chain-Room n (omega (arith, v)) in
    let bytes = take n (drop pos c.mem) in
    let len : length bytes ≡ n =
      omega (arith, length-take n (drop pos c.mem), length-drop pos c.mem, v) in
    let (part, e, a) =
      copy_in_fits (new_chain n) bytes r.valid (omega (arith, r.off, r.enough, len)) in
    let held : content part ≡ bytes = a.bytes ∙ ap (λ t. t ++ bytes) r.no_bytes in
    (
      part,
      rw
          (
            lt→ltb pos c.off (omega arith),
            le→leb c.misalign pos from,
            le→ltb (sub32 c.off pos) n (omega (arith, v)),
          )
          e,
      record {
        chain = a.valid;
        nonempty = omega (arith, ap length held, length-content part a.valid, len);
      },
      held ∙ window_of c n pos v from fits,
    )

-- The first bytes of a chain with data.
pub front_part :
    (c : Chain) (n : ℕ)
    → IsLive c
    → 0 < n
    → n ≤ size c
    → (part : Chain) × (sub_chain c n true c.misalign ≡ some part)
      × IsLive part
      × (content part ≡ take n (content c))
front_part c n l positive fits =
    let (part, e, k, bytes) =
      sub_chain_lem c n c.misalign l.chain (omega arith) positive (omega (arith, l.chain)) in
    let zero_start : c.misalign - c.misalign ≡ zero = omega arith in
    (part, e, k, bytes ∙ ap (λ d. take n (drop d (content c))) zero_start)

-- The last chain of a packed buffer with bytes is where it says.
pub with_back-packed : (b : Buffer) → IsPacked b → 0 < length (view b) → with_back b ≡ b
unfolding contents
with_back-packed b is_empty h = absurd (omega (arith, h))
with_back-packed b (is_packed full lc live l) h =
    ap
      (λ (k : ℕ). record {
        chains = full ++ lc ∷ [];
        last = some k;
        total = length (contents (full ++ lc ∷ []));
      })
      (omega (arith, length_snoc full lc))

-- Setting the last chain and the total changes nothing where they are right already.
pub with_total-packed :
    (b : Buffer) (n : ℕ)
    → IsPacked b
    → 0 < n
    → length (view b) ≡ n
    → record (with_back b) { total = n } ≡ b
with_total-packed b n p positive same =
    ap (λ (k : ℕ). record (with_back b) { total = k }) (sym (total_lem b p ∙ same))
    ∙ with_back-packed b p (omega (arith, same))

-- `b'` is the packed buffer that has the bytes `bs` behind those of `b`.
pub record Longer (b : Buffer) (bs : List ℕ) (b' : Buffer) : Type 0 where
  pub shape : IsPacked b'
  pub bytes : view b' ≡ view b ++ bs

pub suc_test : (n : ℕ) → (suc n == 0) ≡ false
suc_test n = ground arith

-- A whole chain, and then a part of what follows.
pub Longer-trans :
    (b b1 b2 : Buffer) (xs ys : List ℕ) → Longer b xs b1 → Longer b1 ys b2 → Longer b (xs ++ ys) b2
Longer-trans b b1 b2 xs ys h k = record {
  shape = k.shape;
  bytes = k.bytes ∙ ap (λ t. t ++ ys) h.bytes ∙ append_assoc (view b) xs ys;
}

pub append_last_lem :
    (ending : Ending) (b : Buffer) (c : Chain)
    → IsPacked b
    → IsLive c
    → length (view b) + size c < 2 ^ 64
    → (b' : Buffer) × (append_last ending b c ≡ some (b', some (size c))) × Longer b (content c) b'
append_last_lem moves b c p l small =
    let (b', e, p', bytes) = append_moved-view b c p l small in
    (b', e, record { shape = p'; bytes = bytes })
append_last_lem copies b c p l small =
    let (b', e, p', bytes) = append_chain-view b c p l small in
    (b', e, record { shape = p'; bytes = bytes })

pub contents_cons : (x : Chain) (xs : List Chain) → contents (x ∷ xs) ≡ content x ++ contents xs
unfolding contents
contents_cons x xs = refl

pub contents-nil : contents [] ≡ []
unfolding contents
contents-nil = refl

-- A loop that puts the first bytes of `bs`, as many as it is asked for, behind those of a packed buffer.
abbrev pub Copies : (ℕ → Buffer → Option Buffer) → List ℕ → Type 0
Copies run bs =
    (remain : ℕ) (b : Buffer)
    → IsPacked b
    → 0 < remain
    → remain < 2 ^ 32
    → remain ≤ length bs
    → length (view b) + remain < 2 ^ 64
    → (b' : Buffer) × (run remain b ≡ some b') × Longer b (take remain bs) b'

-- A round of such a loop that takes all of `xs`, and goes on as `next`.
abbrev pub Round : (run next : ℕ → Buffer → Option Buffer) → List ℕ → Type 0
Round run next xs =
    (remain : ℕ) (b : Buffer)
    → IsPacked b
    → length xs < remain
    → remain < 2 ^ 32
    → length (view b) + remain < 2 ^ 64
    → (b1 : Buffer) × Longer b xs b1
      × ((b2 : Buffer) → next (remain - length xs) b1 ≡ some b2 → run remain b ≡ some b2)

-- A last round, which takes a part of `xs` only.
abbrev pub Stop : (ℕ → Buffer → Option Buffer) → List ℕ → Type 0
Stop run xs =
    (remain : ℕ) (b : Buffer)
    → IsPacked b
    → 0 < remain
    → remain ≤ length xs
    → length (view b) + remain < 2 ^ 64
    → (b' : Buffer) × (run remain b ≡ some b') × Longer b (take remain xs) b'

pub Copies-Round :
    (run next : ℕ → Buffer → Option Buffer) (xs bs : List ℕ)
    → Stop run xs
    → Round run next xs
    → Copies next bs
    → Copies run (xs ++ bs)
Copies-Round run next xs bs stop round rest remain b p positive word fits small =
    elim (Bool-cases (ltb (length xs) remain)) [
      | inr few ↦
          let inside : remain ≤ length xs = ltb→le _ _ few in
          let (b', e, g) = stop remain b p positive inside small in
          (b', e, rw (take-append_left remain xs bs inside) g)
      | inl more ↦ go (ltb→lt _ _ more) (round remain b p (ltb→lt _ _ more) word small)
    ]
  where
    go :
        length xs < remain
        → (b1 : Buffer) × Longer b xs b1
          × ((b2 : Buffer) → next (remain - length xs) b1 ≡ some b2 → run remain b ≡ some b2)
        → (b' : Buffer) × (run remain b ≡ some b') × Longer b (take remain (xs ++ bs)) b'
    go less (b1, g, on) =
        let (b2, e, k) =
          rest (remain - length xs) b1 g.shape (omega arith) (omega arith)
            (omega (arith, length-append xs bs))
            (omega (arith, ap length g.bytes, length-append (view b) xs)) in
        (b2, on b2 e, rw (take-append remain xs bs (omega arith)) (Longer-trans b b1 b2 xs _ g k))

-- The part of a chain with data that a loop ends with.
pub append_part :
    (ending : Ending) (c : Chain) (pos remain : ℕ) (b : Buffer)
    → IsPacked b
    → IsChain c
    → c.misalign ≤ pos
    → 0 < remain
    → remain ≤ c.off - pos
    → length (view b) + remain < 2 ^ 64
    → (b' : Buffer) × ((do
      part ← sub_chain c remain true pos
      (b', n) ← append_last ending b part
      some b')
        ≡ some b')
      × Longer b (take remain (drop (pos - c.misalign) (content c))) b'
append_part ending c pos remain b p v from positive fits small =
    let (part, e, k, bytes) = sub_chain_lem c remain pos v from positive fits in
    let len : size part ≡ remain = omega (
      arith,
      length-content part k.chain,
      ap length bytes,
      length-take remain (drop (pos - c.misalign) (content c)),
      length-drop (pos - c.misalign) (content c),
      length-content c v,
      v,
    ) in
    let (b', e', g) = append_last_lem ending b part p k (omega (arith, len)) in
    (b', rw (e, ◌>>=◌) (rw (e', ◌>>=◌) refl), subst (λ t. Longer b t b') bytes g)

pub Copies-last :
    (run : ℕ → Buffer → Option Buffer) (xs : List ℕ) → Stop run xs → Copies run (xs ++ [])
Copies-last run xs stop =
    rw append-nil (λ remain b p pos word fits small. stop remain b p pos fits small)
