-- ===== src/Buffer/Iter/Place.antt =====
-- Where a `buffer_iter` (src/reactor/buffer.h) points in the bytes of its buffer.
use unp.Base.{
  ℕ, zero, suc, ◌+◌, ◌-◌, ◌≤◌, ◌<◌, ◌≡◌, refl, sym, subst, ap, ◌∙◌, none-ne-some, some-injective,
  true, false, Option, some, List, [], ◌∷◌, ◌++◌, arith, length, take, drop, get_elem?,
  length-append, append_assoc, drop-append_left, drop-drop, lt→ltb, ◌==◌,
}
use unp.Buffer.Chain.{Chain, content, ◌>>=◌}
use unp.Buffer.Chain.Laws.{length-content}
use unp.Buffer.Store.{Buffer}
use unp.Buffer.Packed.{
  contents, view, packed, IsPacked, is_packed, is_empty, IsLive, AllLive, Front, Front-packed,
}
use unp.Buffer.Read.{before}
use unp.Buffer.Iter.{Iter, validate_iter}

-- The iterator is at a byte of the chain `k`, or behind its last byte, and it knows how many bytes of the
-- buffer are in front of it.
pub record Place (id : ℕ) (b : Buffer) (it : Iter) : Type 0 where
  pub k : ℕ
  pub c : Chain
  pub buffer : it.buffer ≡ some id
  pub chain : it.chain ≡ some k
  pub get : get_elem? b.chains k ≡ some c
  pub from : c.misalign ≤ it.offset_of_chain
  pub upto : it.offset_of_chain ≤ c.off
  pub offset :
      it.offset_of_buffer ≡ length (contents (take k b.chains)) + (it.offset_of_chain - c.misalign)

-- `last_chain_with_data_` as seen from the chain `k`; it is not found from a chain behind it.
abbrev pub seen_from : ℕ → Option ℕ → Option ℕ
seen_from zero last = last
seen_from (suc k) last = seen_from k (before last)

-- A list of live chains around the chain with index `k`.
pub record Around (x : Chain) (xs : List Chain) (k : ℕ) (c : Chain) : Type 0 where
  pub live : IsLive c
  pub behind : AllLive (drop k xs)
  pub bytes : contents (x ∷ xs) ≡ contents (take k (x ∷ xs)) ++ (content c ++ contents (drop k xs))
  pub last : seen_from k (some (length xs)) ≡ some (length (drop k xs))
  pub index : k < length (x ∷ xs)

pub Around-get :
    (x : Chain) (xs : List Chain) (k : ℕ) (c : Chain)
    → IsLive x
    → AllLive xs
    → get_elem? (x ∷ xs) k ≡ some c
    → Around x xs k c
unfolding contents
Around-get x xs zero c l live get =
    let same : x ≡ c = some-injective _ _ get in
    record {
      live = subst IsLive same l;
      behind = live;
      bytes = rw same refl;
      last = refl;
      index = omega arith;
    }
Around-get x [] (suc k) c l live get = absurd (none-ne-some c get)
Around-get x (y ∷ ys) (suc k) c l live get =
    let r = Around-get y ys k c live.0 live.1 get in
    record {
      live = r.live;
      behind = r.behind;
      bytes =
          ap (λ t. content x ++ t) r.bytes
          ∙ sym (
              append_assoc (content x) (contents (take k (y ∷ ys)))
                (content c ++ contents (drop k ys)));
      last = r.last;
      index = omega (arith, r.index);
    }

-- What is known of a packed buffer at a place in it.
pub record Found (id : ℕ) (b : Buffer) (it : Iter) (k : ℕ) (c : Chain) : Type 0 where
  pub live : IsLive c
  pub behind : AllLive (drop (suc k) b.chains)
  pub last : seen_from k b.last ≡ some (length (drop (suc k) b.chains))
  pub rest :
      drop it.offset_of_buffer (view b)
      ≡ drop (it.offset_of_chain - c.misalign) (content c) ++ contents (drop (suc k) b.chains)
  pub valid : validate_iter id b it ≡ some true
  pub within : it.offset_of_buffer ≤ length (view b)
  pub some_bytes : (b.total == 0) ≡ false

rest_at :
    (xs front back : List ℕ) (bytes : List ℕ) (n : ℕ)
    → n ≤ length bytes
    → xs ≡ front ++ (bytes ++ back)
    → drop (length front + n) xs ≡ drop n bytes ++ back
rest_at xs front back bytes n h e = rw e (
    sym (drop-drop n (length front) (front ++ (bytes ++ back)))
    ∙ ap (drop n) (drop-front front (bytes ++ back))
    ∙ drop-append_left n bytes back h)
  where
    drop-front : (ys zs : List ℕ) → drop (length ys) (ys ++ zs) ≡ zs
    drop-front [] zs = refl
    drop-front (y ∷ ys) zs = drop-front ys zs

self_eq : (n : ℕ) → (n == n) ≡ true
self_eq n = ground arith

Found-front :
    (id : ℕ) (x : Chain) (xs : List Chain) (it : Iter)
    → IsLive x
    → AllLive xs
    → let b : Buffer = record {
      chains = x ∷ xs;
      last = some (length xs);
      total = length (contents (x ∷ xs));
    } in
      (p : Place id b it) → Found id b it p.k p.c
unfolding validate_iter contents
Found-front id x xs it l live p =
    let a = Around-get x xs p.k p.c l live p.get in
    record {
      live = a.live;
      behind = a.behind;
      last = a.last;
      rest = rw p.offset (
          rest_at _ (contents (take p.k (x ∷ xs))) _ (content p.c)
            (it.offset_of_chain - p.c.misalign)
            (omega (arith, length-content p.c a.live.chain, p.upto, a.live.chain)) a.bytes);
      valid = rw (p.buffer, self_eq id) (rw (p.chain, ◌>>=◌) (rw (lt→ltb _ _ a.index) refl));
      within = omega (
        arith,
        p.offset,
        p.upto,
        ap length a.bytes,
        length-append (contents (take p.k (x ∷ xs))) (content p.c ++ contents (drop p.k xs)),
        length-append (content p.c) (contents (drop p.k xs)),
        length-content p.c a.live.chain,
        a.live.chain,
      );
      some_bytes = ground (
        arith,
        ap length a.bytes,
        length-append (contents (take p.k (x ∷ xs))) (content p.c ++ contents (drop p.k xs)),
        length-append (content p.c) (contents (drop p.k xs)),
        length-content p.c a.live.chain,
        a.live.nonempty,
      );
    }

pub Found-packed :
    (id : ℕ) (b : Buffer) (it : Iter) → IsPacked b → (p : Place id b it) → Found id b it p.k p.c
Found-packed id b it is_empty p = absurd (none-ne-some p.c p.get)
Found-packed id b it (is_packed full lc live l) p =
    let f = Front-packed full lc live l in
    subst (λ t. (q : Place id t it) → Found id t it q.k q.c) (sym (same f))
      (Found-front id f.front f.behind it f.live f.behind_live) p
  where
    same :
        (f : Front full lc)
        → packed full lc ≡ (record {
          chains = f.front ∷ f.behind;
          last = some (length f.behind);
          total = length (contents (f.front ∷ f.behind));
        })
    same f = rw (f.split, f.count) refl
