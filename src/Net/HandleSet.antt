-- ===== src/Net/HandleSet.antt =====
-- `handle_set` of src/net/handle_set.h: an `fd_set` with its size and its greatest handle. INVALID_HANDLE is `none`
-- among handles. `none` as a result is a fault: a bit outside the `fd_set` is read.
pub mod Members
pub mod Unset
pub mod Walk
mod Tests
use unp.Base.{
  ℕ, zero, suc, Bool, true, false, ◌&&◌, not, Option, none, some, List, [], ◌∷◌, get_elem?, set,
  drop, replicate, ltb, leb, ◌==◌, if◌then◌else◌,
}
use unp.Base.Int.{ℤ, pos, negsuc}
use unp.Buffer.Chain.{◌>>=◌}
use unp.Reactor.Epoll.{increment, decrement, is_zero}

abbrev pub fd_setsize : ℕ
fd_setsize = 1024

pub record HandleSet : Type 0 where
  pub size : ℤ
  pub max_handle : Option ℕ
  pub bits : List Bool

unfoldable pub reset : HandleSet
reset = record { size = pos 0; max_handle = none; bits = replicate fd_setsize false }

-- FD_ISSET
abbrev pub is_set : HandleSet → ℕ → Option Bool
is_set s handle = get_elem? s.bits handle

-- `handle > max_handle_`
abbrev pub above : ℕ → Option ℕ → Bool
above handle none = true
above handle (some m) = ltb m handle

-- `is_last_handle`
abbrev pub is_last_handle : HandleSet → Option ℕ → Bool
is_last_handle s none = elim s.max_handle [ none ↦ true | some m ↦ false ]
is_last_handle s (some handle) = elim s.max_handle [ none ↦ false | some m ↦ handle == m ]

unfoldable pub set_bit : HandleSet → Option ℕ → Option HandleSet
set_bit s none = some s
set_bit s (some handle) = do
  b ← is_set s handle
  some (
      if b then s else record {
        size = increment s.size;
        max_handle = if above handle s.max_handle then some handle else s.max_handle;
        bits = set s.bits handle true;
      })

-- `while(!is_set(--tmp_handle));`
unfoldable pub search_down : List Bool → ℕ → Option ℕ
search_down bits zero = none
search_down bits (suc handle) =
    let rest = search_down bits handle in
    do b ← get_elem? bits handle; (if b then some handle else rest)

unfoldable pub unset_bit : HandleSet → Option ℕ → Option HandleSet
unset_bit s none = some s
unset_bit s (some handle) = if leb fd_setsize handle then some s else (do
  b ← is_set s handle
  (if not b then some s else (do
    let bits = set s.bits handle false
    let s' = record s { size = decrement s.size; bits = bits }
    (if is_last_handle s (some handle)
        then (do m ← search_down bits (suc handle); some (record s' { max_handle = some m }))
        else some s'))))

-- `while(!is_set(++handle));`
unfoldable pub search_up : List Bool → ℕ → Option ℕ
search_up [] handle = none
search_up (b ∷ bits) handle =
    let rest = search_up bits (suc handle) in if b then some handle else rest

abbrev pub is_positive : ℤ → Bool
is_positive (pos n) = ltb 0 n
is_positive (negsuc n) = false

unfoldable pub first_handle : HandleSet → Option (Option ℕ)
first_handle s =
    if is_positive s.size then (do handle ← search_up s.bits 0; some (some handle)) else some none

-- `while(!is_set(++current_handle) && current_handle < max_handle_);`, over the bits from the handle on.
unfoldable pub next_loop : List Bool → ℕ → Option ℕ → Option ℕ
next_loop [] handle max_handle = none
next_loop (b ∷ bits) handle max_handle =
    let rest = next_loop bits (suc handle) max_handle in
    if not b && (elim max_handle [ none ↦ false | some m ↦ ltb handle m ])
    then rest
    else some handle

abbrev pub following : Option ℕ → ℕ
following none = 0
following (some handle) = suc handle

-- The test for the log message reads the bit of the current handle.
abbrev pub logged : HandleSet → Option ℕ → Option Bool
logged s none = some true
logged s (some handle) = is_set s handle

unfoldable pub next_handle : HandleSet → Option ℕ → Option (Option ℕ)
next_handle s current = if is_zero s.size then some none else (do
  b ← logged s current
  (if is_last_handle s current then some none else (do
    handle ← next_loop (drop (following current) s.bits) (following current) s.max_handle
    found ← is_set s handle
    some (if found then some handle else none))))
