-- ===== src/Buffer/Tests.antt =====
-- The buffer at concrete inputs.
use unp.Base.{ℕ, ◌≡◌, refl, false, some, List, [], ◌∷◌, ◌++◌, arith, length, take, drop, replicate}
use unp.Base.Int.{pos}
use unp.Buffer.Chain.{Chain, content}
use unp.Buffer.Store.{Buffer, expand_if_needed}
use unp.Buffer.Store.Expand.{Expanded, expand_if_needed-Expanded}
use unp.Buffer.Packed.{view, contents, packed, IsPacked, is_packed, IsLive}
use unp.Buffer.Write.{append_data}
use unp.Buffer.Write.Append.{append_data-view}
use unp.Buffer.Read.{remove, pullup}
use unp.Buffer.Read.Remove.{remove-view}
use unp.Buffer.Read.Pullup.{Pulled, pullup-view}

abbrev pub first_chain : Chain
first_chain = record { mem = 9 ∷ 1 ∷ 2 ∷ 3 ∷ []; capacity = 4; off = 4; misalign = 1 }

abbrev pub second_chain : Chain
second_chain = record { mem = 4 ∷ 5 ∷ 0 ∷ 0 ∷ []; capacity = 4; off = 2; misalign = 0 }

abbrev pub two_chains : Buffer
two_chains = packed (first_chain ∷ []) second_chain

first_chain-IsLive : IsLive first_chain
first_chain-IsLive = record {
  chain = record { starts = omega arith; ends = omega arith; block = refl; word = omega arith };
  nonempty = omega arith;
}

second_chain-IsLive : IsLive second_chain
second_chain-IsLive = record {
  chain = record { starts = omega arith; ends = omega arith; block = refl; word = omega arith };
  nonempty = omega arith;
}

pub two_chains-IsPacked : IsPacked two_chains
two_chains-IsPacked =
    is_packed (first_chain ∷ []) second_chain (first_chain-IsLive, tt) second_chain-IsLive

pub view-two_chains : view two_chains ≡ 1 ∷ 2 ∷ 3 ∷ 4 ∷ 5 ∷ []
unfolding contents content
view-two_chains = refl

pub length-two_chains : length (view two_chains) ≡ 5
unfolding contents content
length-two_chains = refl

append_data-view_example :
    (b' : Buffer) × (append_data two_chains (some (7 ∷ 8 ∷ 9 ∷ [])) ≡ some (b', some 3))
    × IsPacked b'
    × (view b' ≡ view two_chains ++ 7 ∷ 8 ∷ 9 ∷ [])
append_data-view_example =
    append_data-view two_chains (7 ∷ 8 ∷ 9 ∷ []) two_chains-IsPacked (omega arith) (omega arith)
      (omega (arith, length-two_chains))

remove-view_example :
    (b' : Buffer) × (remove two_chains false 4 ≡ some (b', some (take 4 (view two_chains))))
    × IsPacked b'
    × (view b' ≡ drop 4 (view two_chains))
remove-view_example =
    remove-view two_chains 4 two_chains-IsPacked (omega arith) (omega (arith, length-two_chains))
      (omega arith) (omega (arith, length-two_chains))

pullup-view_example :
    (b' : Buffer) × (bytes : List ℕ) × (pullup two_chains (pos 4) ≡ some (b', some bytes))
    × Pulled two_chains 4 b' bytes
pullup-view_example =
    pullup-view two_chains 4 two_chains-IsPacked (omega arith) (omega (arith, length-two_chains))
      (omega arith)

expand_if_needed-Expanded_example :
    (b' : Buffer) × (i : ℕ) × (expand_if_needed two_chains 100 ≡ some (b', i))
    × Expanded two_chains 100 b' i
expand_if_needed-Expanded_example =
    expand_if_needed-Expanded two_chains 100 two_chains-IsPacked (omega arith)

-- A block of 1024 bytes, the first eight of which are given up.
abbrev full_chain : Chain
full_chain = record { mem = replicate 1024 0; capacity = 1024; off = 1024; misalign = 8 }
