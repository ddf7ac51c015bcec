-- ===== src/Lease/Steady.antt =====
-- The calls of the allocator do not change its lease time.
use auto_pxe.Prelude.{
  ℕ, ◌≡◌, ap, ◌∙◌, not, ◌&&◌, Option, none, some, List, [], ◌∷◌, Text, lookup, nat_eq, text_eq, inl,
  inr, Bool-cases, is_empty, OnSome, OnSome-bind, ◌>>=◌,
}
use auto_pxe.Net.Canon.{canon}
use auto_pxe.Net.Ip.{Ip, to_4, is_nil, equal_4}
use auto_pxe.Storage.{Disk, Io}
use auto_pxe.Lease.{Lease, FileFormat, Allocator, Done, ip_to_u32, in_pool, static_ip_set}
use auto_pxe.Lease.Ops.{
  after, forget, reap_lease, reap_leases, reap_expired, member, save_locked, Search, found,
  exhausted, out_of_fuel, bind_lease, allocate_found, allocate_fresh, allocate_dynamic,
  allocate_canonical, allocate, is_taken, search_pool, pool_size, reap_declined,
}
use auto_pxe.Lease.Freeing.{release, release_found, evict, hold_out, decline}
use auto_pxe.Lease.Invariant.{save_locked-state}

module _ (time : ℕ) where
  abbrev pub Steady : Allocator → Type 0
  Steady a = a.lease_time ≡ time

  saved-Steady :
      (io : Io) (a : Allocator) (d : Disk FileFormat) → Steady a → Steady (save_locked io a d).state
  saved-Steady io a d h = ap (λ (b : Allocator). b.lease_time) (save_locked-state io a d) ∙ h

  reap_lease-Steady :
      (now : ℕ) (m : Text) (l : Lease) (a : Allocator)
      → Steady a
      → OnSome Steady (reap_lease now (m, l) a)
  unfolding reap_lease forget
  reap_lease-Steady now m l a h = elim (Bool-cases (after l.expires now)) [
    | inl live ↦ rw live h
    | inr over ↦ rw over (
        OnSome-bind (λ v. Unit {0}) Steady (ip_to_u32 l.ip) _ (any_value (ip_to_u32 l.ip))
          (λ v _. h))
  ]
    where
      any_value : (o : Option ℕ) → OnSome (λ v. Unit {0}) o
      any_value none = tt
      any_value (some v) = tt

  reap_leases-Steady :
      (now : ℕ) (es : List (Text × Lease)) (a : Allocator)
      → Steady a
      → OnSome Steady (reap_leases now es a)
  unfolding reap_leases
  reap_leases-Steady now [] a h = h
  reap_leases-Steady now ((m, l) ∷ es) a h =
      OnSome-bind Steady Steady (reap_lease now (m, l) a) (reap_leases now es)
        (reap_lease-Steady now m l a h) (λ b k. reap_leases-Steady now es b k)

  reap_expired-Steady : (now : ℕ) (a : Allocator) → Steady a → OnSome Steady (reap_expired now a)
  unfolding reap_expired
  reap_expired-Steady now a h =
      OnSome-bind Steady Steady (reap_leases now a.dynamic a)
        (λ b. some (record b { declined = reap_declined now b.declined b.declined }))
        (reap_leases-Steady now a.dynamic a h) (λ b k. k)

  abbrev pub AllocatesSteady : Option (Done × Option Lease) → Type 0
  AllocatesSteady = OnSome λ r. Steady r.0.state

  module _ (now : ℕ) (io : Io) (m : Text) (d : Disk FileFormat) where
    allocate_found-Steady :
        (a : Allocator) (s : Search) → Steady a → Steady (allocate_found now io m a d s).0.state
    unfolding allocate_found bind_lease
    allocate_found-Steady a (found v) h = saved-Steady io _ d h
    allocate_found-Steady a exhausted h = h
    allocate_found-Steady a out_of_fuel h = h

    allocate_fresh-Steady :
        (a : Allocator) → Steady a → AllocatesSteady (allocate_fresh now io m a d)
    unfolding allocate_fresh
    allocate_fresh-Steady a h = elim (Bool-cases a.has_pool) [
      | inr no_pool ↦ simp no_pool h
      | inl p ↦ simp p (of_statics (static_ip_set a.static))
    ]
      where
        of_statics :
            (o : Option (List ℕ))
            → AllocatesSteady (
                o >>= λ vs. some (
                  allocate_found now io m a d
                    (search_pool (is_taken a vs now) a.pool_end (pool_size a) a.pool_start)))
        of_statics none = tt
        of_statics (some vs) = allocate_found-Steady a _ h

    allocate_dynamic-Steady :
        (a : Allocator) (o : Option Lease)
        → Steady a
        → AllocatesSteady (allocate_dynamic now io m a d o)
    unfolding allocate_dynamic
    allocate_dynamic-Steady a (some l) h = saved-Steady io _ d h
    allocate_dynamic-Steady a none h = allocate_fresh-Steady a h

    allocate_canonical-Steady :
        (a : Allocator) (o : Option Lease)
        → Steady a
        → AllocatesSteady (allocate_canonical now io m a d o)
    unfolding allocate_canonical
    allocate_canonical-Steady a (some l) h = h
    allocate_canonical-Steady a none h =
        OnSome-bind Steady (λ r. Steady r.0.state) (reap_expired now a)
          (λ b. allocate_dynamic now io m b d (lookup m b.dynamic)) (reap_expired-Steady now a h)
          (λ b k. allocate_dynamic-Steady b (lookup m b.dynamic) k)

  module _ (now : ℕ) (io : Io) (mac : Text) (a : Allocator) (d : Disk FileFormat)
      (h : Steady a) where
    pub allocate-Steady : AllocatesSteady (allocate now io mac a d)
    unfolding allocate
    allocate-Steady = elim (Bool-cases (is_empty (canon mac))) [
      | inl none_given ↦ rw none_given h
      | inr given ↦ rw given (allocate_canonical-Steady now io (canon mac) d a _ h)
    ]

    release_found-Steady :
        (ip : Ip) (o : Option Lease)
        → OnSome (λ (r : Done). Steady r.state) (release_found io (canon mac) ip a d o)
    unfolding release_found forget
    release_found-Steady ip none = h
    release_found-Steady ip (some l) =
        elim (Bool-cases (not (is_nil (to_4 ip)) && not (equal_4 l.ip (to_4 ip)))) [
          | inl other ↦ rw other h
          | inr same ↦ rw same (of_address (ip_to_u32 l.ip))
        ]
      where
        of_address :
            (o : Option ℕ)
            → OnSome
                (λ (r : Done). Steady r.state)
                (o >>= λ v. some (save_locked io (forget (canon mac) v a) d))
        of_address none = tt
        of_address (some v) = saved-Steady io _ d h

    pub release-Steady : (ip : Ip) → OnSome (λ (r : Done). Steady r.state) (release io mac ip a d)
    unfolding release
    release-Steady ip = elim (Bool-cases (is_empty (canon mac))) [
      | inl none_given ↦ rw none_given h
      | inr given ↦ rw given (release_found-Steady ip (lookup (canon mac) a.dynamic))
    ]

    evict-Steady : (v : ℕ) (o : Option Text) → Steady (evict v o a)
    unfolding evict
    evict-Steady v none = h
    evict-Steady v (some owner) = h

  hold_out-Steady :
      (now : ℕ) (m : Text) (v : ℕ) (vs : List ℕ) (a : Allocator)
      → Steady a
      → Steady (hold_out now m v vs a)
  unfolding hold_out
  hold_out-Steady now m v vs a h = elim (Bool-cases (not (member v vs) && in_pool a v)) [
    | inl inside ↦ rw inside h
    | inr outside ↦ rw outside h
  ]

  module _ (now : ℕ) (io : Io) (mac : Text) (ip : Ip) (a : Allocator) (d : Disk FileFormat)
      (h : Steady a) where
    of_statics_decline :
        (v : ℕ) (b : Allocator) (o : Option (List ℕ))
        → Steady b
        → OnSome
            (λ (r : Done). Steady r.state)
            (o >>= λ vs. some (save_locked io (hold_out now (canon mac) v vs b) d))
    of_statics_decline v b none k = tt
    of_statics_decline v b (some vs) k =
        saved-Steady io _ d (hold_out-Steady now (canon mac) v vs b k)

    pub decline-Steady : OnSome (λ (r : Done). Steady r.state) (decline now io mac ip a d)
    unfolding decline
    decline-Steady = elim (Bool-cases (is_nil (to_4 ip))) [
      | inl bad ↦ rw bad h
      | inr good ↦ rw good (of_address (ip_to_u32 (to_4 ip)))
    ]
      where
        of_address :
            (o : Option ℕ)
            → OnSome
                (λ (r : Done). Steady r.state)
                (o >>= λ v. static_ip_set (evict v (lookup v a.by_ip) a).static >>= λ vs.
                  some (
                    save_locked io
                      (hold_out now (canon mac) v vs (evict v (lookup v a.by_ip) a))
                      d))
        of_address none = tt
        of_address (some v) =
            of_statics_decline v (evict v (lookup v a.by_ip) a)
              (static_ip_set (evict v (lookup v a.by_ip) a).static)
              (evict-Steady now io mac a d h v (lookup v a.by_ip))
