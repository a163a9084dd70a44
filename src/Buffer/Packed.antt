-- ===== src/Buffer/Packed.antt =====
-- The shape that a buffer of src/reactor/buffer.cpp keeps: no chain without data, the last chain is
-- `last_chain_with_data_`, and `total_len_` counts the bytes. The abstract view is the byte sequence.
use unp.Base.{
  ℕ, suc, ◌<◌, ◌≡◌, refl, sym, subst, ap, some, List, [], ◌∷◌, ◌++◌, arith, length, get_elem?, set,
  take, length-append, append_assoc, append-nil, none, false, ◌==◌,
}
use unp.Buffer.Chain.{Chain, size, content}
use unp.Buffer.Chain.Laws.{IsChain, length-content}
use unp.Buffer.Store.{Buffer, empty, drop_last}

unfoldable pub contents : List Chain → List ℕ
contents [] = []
contents (c ∷ cs) = content c ++ contents cs

-- The bytes of a buffer, in order.
abbrev pub view : Buffer → List ℕ
view b = contents b.chains

pub contents-append : (xs ys : List Chain) → contents (xs ++ ys) ≡ contents xs ++ contents ys
unfolding contents
contents-append [] ys = refl
contents-append (c ∷ xs) ys = rw (contents-append xs ys, append_assoc)

pub contents-singleton : (c : Chain) → contents (c ∷ []) ≡ content c
unfolding contents
contents-singleton c = rw append-nil

pub contents_snoc :
    (xs : List Chain) (c : Chain) → contents (xs ++ c ∷ []) ≡ contents xs ++ content c
contents_snoc xs c = rw (contents-append xs (c ∷ []), contents-singleton c)

pub record IsLive (c : Chain) : Type 0 where
  pub chain : IsChain c
  pub nonempty : 0 < size c

abbrev pub AllLive : List Chain → Type 0
AllLive [] = Unit {0}
AllLive (c ∷ cs) = IsLive c × AllLive cs

pub AllLive-snoc : (xs : List Chain) (c : Chain) → AllLive xs → IsLive c → AllLive (xs ++ c ∷ [])
AllLive-snoc [] c h k = (k, tt)
AllLive-snoc (x ∷ xs) c h k = (h.0, AllLive-snoc xs c h.1 k)

abbrev pub packed : List Chain → Chain → Buffer
packed full lc = record {
  chains = full ++ lc ∷ [];
  last = some (length full);
  total = length (contents (full ++ lc ∷ []));
}

pub data IsPacked : Buffer → Type 0 where
  is_empty : IsPacked empty
  is_packed :
      (full : List Chain) (lc : Chain) → AllLive full → IsLive lc → IsPacked (packed full lc)

module _ {ℓ} {A : Type ℓ} where
  pub get_last : (xs : List A) (y : A) → get_elem? (xs ++ y ∷ []) (length xs) ≡ some y
  get_last [] y = refl
  get_last (x ∷ xs) y = get_last xs y

  pub get_past : (xs : List A) (y : A) → get_elem? (xs ++ y ∷ []) (suc (length xs)) ≡ none
  get_past [] y = refl
  get_past (x ∷ xs) y = get_past xs y

  pub set_last : (xs : List A) (y z : A) → set (xs ++ y ∷ []) (length xs) z ≡ xs ++ z ∷ []
  set_last [] y z = refl
  set_last (x ∷ xs) y z = ap (◌∷◌ x) (set_last xs y z)

  pub take_last : (xs : List A) (y : A) → take (suc (length xs)) (xs ++ y ∷ []) ≡ xs ++ y ∷ []
  take_last [] y = refl
  take_last (x ∷ xs) y = ap (◌∷◌ x) (take_last xs y)

  pub drop_last_snoc : (xs : List A) (y : A) → drop_last (xs ++ y ∷ []) ≡ xs
  drop_last_snoc [] y = refl
  drop_last_snoc (x ∷ []) y = refl
  drop_last_snoc (x ∷ x' ∷ xs) y = ap (◌∷◌ x) (drop_last_snoc (x' ∷ xs) y)

  pub length_snoc : (xs : List A) (y : A) → length (xs ++ y ∷ []) ≡ suc (length xs)
  length_snoc [] y = refl
  length_snoc (x ∷ xs) y = ap suc (length_snoc xs y)

pub packed_total :
    (full : List Chain) (lc : Chain) → IsLive lc → 0 < length (contents (full ++ lc ∷ []))
packed_total full lc l = omega (
  arith,
  ap length (contents_snoc full lc),
  length-append (contents full) (content lc),
  length-content lc l.chain,
  l.nonempty,
)

pub packed_test :
    (full : List Chain) (lc : Chain)
    → IsLive lc
    → (length (contents (full ++ lc ∷ [])) == 0) ≡ false
packed_test full lc l = ground (arith, packed_total full lc l)

-- Any nonempty list of chains with data, with its last one and its byte count, is packed.
pub record Snoc (x : Chain) (xs : List Chain) : Type 0 where
  pub front : List Chain
  pub back : Chain
  pub split : x ∷ xs ≡ front ++ back ∷ []
  pub count : length xs ≡ length front
  pub front_live : AllLive front
  pub back_live : IsLive back

Snoc-split : (x : Chain) (xs : List Chain) → IsLive x → AllLive xs → Snoc x xs
Snoc-split x [] l live = record {
  front = [];
  back = x;
  split = refl;
  count = refl;
  front_live = tt;
  back_live = l;
}
Snoc-split x (y ∷ ys) l live =
    let s = Snoc-split y ys live.0 live.1 in
    record {
      front = x ∷ s.front;
      back = s.back;
      split = ap (◌∷◌ x) s.split;
      count = ap suc s.count;
      front_live = (l, s.front_live);
      back_live = s.back_live;
    }

abbrev pub chained : List Chain → ℕ → ℕ → Buffer
chained chains last total = record { chains = chains; last = some last; total = total }

pub chained-IsPacked :
    (x : Chain) (xs : List Chain) (total : ℕ)
    → IsLive x
    → AllLive xs
    → total ≡ length (contents (x ∷ xs))
    → IsPacked (chained (x ∷ xs) (length xs) total)
chained-IsPacked x xs total l live e =
    let s = Snoc-split x xs l live in
    subst (λ t. IsPacked (chained (x ∷ xs) (length xs) t)) (sym e)
      (rw (s.split, s.count) (is_packed s.front s.back s.front_live s.back_live))

-- The chains of a packed buffer from the front.
pub record Front (full : List Chain) (lc : Chain) : Type 0 where
  pub front : Chain
  pub behind : List Chain
  pub split : full ++ lc ∷ [] ≡ front ∷ behind
  pub count : length full ≡ length behind
  pub live : IsLive front
  pub behind_live : AllLive behind

pub Front-packed : (full : List Chain) (lc : Chain) → AllLive full → IsLive lc → Front full lc
Front-packed [] lc live l = record {
  front = lc;
  behind = [];
  split = refl;
  count = refl;
  live = l;
  behind_live = tt;
}
Front-packed (c ∷ full) lc live l = record {
  front = c;
  behind = full ++ lc ∷ [];
  split = refl;
  count = sym (length_snoc full lc);
  live = live.0;
  behind_live = AllLive-snoc full lc live.1 l;
}
