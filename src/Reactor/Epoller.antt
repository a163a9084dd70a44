-- ===== src/Reactor/Epoller.antt =====
-- `epoller` of src/reactor/epoller.h and src/reactor/epoller.cpp: the masks of events it keeps by handle, and its calls of
-- epoll. A handle is a number, and what the kernel does is a parameter.
pub mod Synced
pub mod Tests
use unp.Base.{
  ℕ, ◌-◌, ◌^◌, ◌<◌, ◌≡◌, Bool, true, false, not, Option, none, some, List, [], ◌∷◌, ◌==◌,
  if◌then◌else◌, bit_and, bit_or, clear_bits,
}
use unp.Base.Int.{ℤ, pos, negsuc}
use unp.Reactor.Assoc.{lookup, erase, put}

pub data Ctl : Type 0 where
  ctl_add : Ctl
  ctl_mod : Ctl
  ctl_del : Ctl

-- What the kernel offers. A call of `epoll_ctl` or `close` gives true where it returns 0; `epoll_wait` gives
-- what it writes to the array, by handle and mask, and what it returns.
pub record Kernel (K : Type 0) : Type 0 where
  pub epoll_create : K → K × ℤ
  pub epoll_ctl : K → ℤ → Ctl → ℕ → ℕ → K × Bool
  pub epoll_wait : K → ℤ → ℤ → ℤ → K × (List (ℕ × ℕ) × ℤ)
  pub close_fd : K → ℤ → K × ℤ

pub record Epoller (K : Type 0) : Type 0 where
  pub epoll_fd : ℤ
  pub events : List (ℕ × ℕ)
  pub kernel : K

abbrev pub is_negative : ℤ → Bool
is_negative (pos n) = false
is_negative (negsuc n) = true

module _ {K : Type 0} (os : Kernel K) where
  unfoldable pub open_epoll : Epoller K → Epoller K × ℤ
  open_epoll p =
      let (k, fd) = os.epoll_create p.kernel in
      (record p { epoll_fd = fd; kernel = k }, if is_negative fd then negsuc 0 else pos 0)

  -- The map is changed first, then the kernel is told.
  unfoldable pub tell : Epoller K → Ctl → ℕ → ℕ → Epoller K × ℤ
  tell p op handle event =
      let (k, done) = os.epoll_ctl p.kernel p.epoll_fd op handle event in
      (
        record p { events = put p.events handle event; kernel = k },
        if done then pos 0 else negsuc 0,
      )

  unfoldable pub add : Epoller K → ℕ → ℕ → Epoller K × ℤ
  add p handle event = elim (lookup p.events handle) [
    | none ↦ tell p ctl_add handle event
    | some old ↦
        if bit_and old event == 0 then tell p ctl_mod handle (bit_or old event) else (p, negsuc 0)
  ]

  -- The events that are left, none of them in the end.
  unfoldable pub drop_handle : Epoller K → ℕ → ℕ → Epoller K × ℤ
  drop_handle p handle left =
      let (k, done) = os.epoll_ctl p.kernel p.epoll_fd ctl_del handle left in
      if done
      then (record p { events = erase p.events handle; kernel = k }, pos 0)
      else (record p { kernel = k }, negsuc 0)

  unfoldable pub keep_events : Epoller K → ℕ → ℕ → Epoller K × ℤ
  keep_events p handle left =
      let (k, done) = os.epoll_ctl p.kernel p.epoll_fd ctl_mod handle left in
      let p' = record p { events = put p.events handle left; kernel = k } in
      if done
      then (if left == 0 then drop_handle p' handle left else (p', pos 0))
      else (record p { kernel = k }, negsuc 0)

  unfoldable pub del : Epoller K → ℕ → ℕ → Epoller K × ℤ
  del p handle event = elim (lookup p.events handle) [
    | none ↦ (p, negsuc 0)
    | some old ↦
        if bit_and old event == 0
        then (p, negsuc 0)
        else keep_events p handle (clear_bits 32 old event)
  ]

  unfoldable pub has : Epoller K → ℕ → ℕ → Bool
  has p handle event = elim (lookup p.events handle) [
    | none ↦ false
    | some old ↦ not (bit_and old event == 0)
  ]

  unfoldable pub wait_events : Epoller K → ℤ → ℤ → Epoller K × (List (ℕ × ℕ) × ℤ)
  wait_events p max_events timeout =
      let (k, answer) = os.epoll_wait p.kernel p.epoll_fd max_events timeout in
      (record p { kernel = k }, answer)

  unfoldable pub close_epoll : Epoller K → Epoller K × ℤ
  close_epoll p = let (k, ret) = os.close_fd p.kernel p.epoll_fd in (record p { kernel = k }, ret)

-- What epoll_ctl(2) says, of the interest list that the kernel keeps for one epoll descriptor.
pub record IsEpoll {K : Type 0} (os : Kernel K) : Type 0 where
  pub interest : K → ℤ → ℕ → Option ℕ
  pub added :
      (k : K) (fd : ℤ) (h e : ℕ)
      → (os.epoll_ctl k fd ctl_add h e).1 ≡ true
      → (j : ℕ)
      → interest (os.epoll_ctl k fd ctl_add h e).0 fd j
        ≡ (if j == h then some e else interest k fd j)
  pub modified :
      (k : K) (fd : ℤ) (h e : ℕ)
      → (os.epoll_ctl k fd ctl_mod h e).1 ≡ true
      → (j : ℕ)
      → interest (os.epoll_ctl k fd ctl_mod h e).0 fd j
        ≡ (if j == h then some e else interest k fd j)
  pub deleted :
      (k : K) (fd : ℤ) (h e : ℕ)
      → (os.epoll_ctl k fd ctl_del h e).1 ≡ true
      → (j : ℕ)
      → interest (os.epoll_ctl k fd ctl_del h e).0 fd j ≡ (if j == h then none else interest k fd j)
  pub refused :
      (k : K) (fd : ℤ) (op : Ctl) (h e : ℕ)
      → (os.epoll_ctl k fd op h e).1 ≡ false
      → (j : ℕ) → interest (os.epoll_ctl k fd op h e).0 fd j ≡ interest k fd j
