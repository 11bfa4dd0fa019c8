-- ===== src/Proxy/Transport/Pool.antt =====
-- The pool of buffers, `proxyBufferPool` of main.go over `sync.Pool`.
use s3proxy4gcs.Base.{
  ℕ, zero, suc, ◌≡◌, refl, sym, ap, ◌∙◌, inl, inr, Option, none, some, List, [], ◌∷◌, All, length,
  arith, Option-cases,
}
use mathlib.Core.Path.{subst}
use mathlib.Core.Option.{some-ne-none, some-injective}

-- The size of a new buffer, and the buffers that were put back, a buffer being its bytes.
pub record ProxyBufferPool : Type 0 where
  pub size : ℕ
  pub free : List (List ℕ)

unfoldable pub new_proxy_buffer_pool : ℕ → ProxyBufferPool
new_proxy_buffer_pool size = record { size = size; free = [] }

zeros : ℕ → List ℕ
zeros zero = []
zeros (suc n) = 0 ∷ zeros n

-- The item at the place, and the others.
take_out : {A : Type 0} → ℕ → List A → Option (A × List A)
take_out i [] = none
take_out zero (x ∷ xs) = some (x, xs)
take_out (suc i) (x ∷ xs) = elim (take_out i xs) [ none ↦ none | some (y, ys) ↦ some (y, x ∷ ys) ]

abbrev given : ProxyBufferPool → Option (List ℕ × List (List ℕ)) → List ℕ × ProxyBufferPool
given pool none = (zeros pool.size, pool)
given pool (some (b, free)) = (b, record pool { free = free })

-- `Get`: `sync.Pool` gives any of the buffers that were put back, or a new one. Which one it gives
-- is an argument, a place or none.
unfoldable pub get : Option ℕ → ProxyBufferPool → List ℕ × ProxyBufferPool
unfolding take_out zeros
get none pool = given pool none
get (some i) pool = given pool (take_out i pool.free)

unfoldable pub put : List ℕ → ProxyBufferPool → ProxyBufferPool
put b pool = record pool { free = b ∷ pool.free }

-- What the reverse proxies do with the pool: they take a buffer, or put back one of those that they
-- have taken, given by its place.
pub data Use : Type 0 where
  takes : Option ℕ → Use
  gives : ℕ → Use

-- The pool, and the buffers that the reverse proxies hold.
pub record Buffers : Type 0 where
  pub pool : ProxyBufferPool
  pub held : List (List ℕ)

abbrev given_back : Buffers → Option (List ℕ × List (List ℕ)) → Buffers
given_back s none = s
given_back s (some (b, held)) = record { pool = put b s.pool; held = held }

unfoldable pub use_pool : Buffers → Use → Buffers
unfolding get put take_out
use_pool s (takes choice) =
    let (b, pool) = get choice s.pool in record { pool = pool; held = b ∷ s.held }
use_pool s (gives i) = given_back s (take_out i s.held)

unfoldable pub run : Buffers → List Use → Buffers
unfolding use_pool
run s [] = s
run s (u ∷ us) = run (use_pool s u) us

-- All the buffers, those in the pool and those that are held, have the size of the pool.
pub record IsUniform (size : ℕ) (s : Buffers) : Type 0 where
  pub sized : s.pool.size ≡ size
  pub in_pool : All (λ b. length b ≡ size) s.pool.free
  pub in_use : All (λ b. length b ≡ size) s.held

length-zeros : (n : ℕ) → length (zeros n) ≡ n
unfolding zeros
length-zeros zero = refl
length-zeros (suc n) = ap suc (length-zeros n)

take_out-All :
    {A : Type 0} (P : A → Type 0) (i : ℕ) (xs : List A) (y : A) (ys : List A)
    → All P xs
    → take_out i xs ≡ some (y, ys)
    → P y × All P ys
unfolding take_out
take_out-All P i [] y ys h e = absurd (some-ne-none (y, ys) (sym e))
take_out-All P zero (x ∷ xs) y ys (p, h) e =
    let same = some-injective _ _ e in
    (subst P (ap (λ q. q.0) same) p, subst (All P) (ap (λ q. q.1) same) h)
take_out-All {A} P (suc i) (x ∷ xs) y ys (p, h) e = elim (Option-cases (take_out i xs)) [
  | inl missing ↦ absurd (ground (arith, e, missing))
  | inr ((z, zs), found) ↦
      let (q, k) = take_out-All P i xs z zs h found in
      let same : ◌≡◌ {A = A × List A} (z, x ∷ zs) (y, ys) =
        some-injective _ _ (ground (arith, e, found)) in
      (subst P (ap (λ t. t.0) same) q, subst (All P) (ap (λ t. t.1) same) (p, k))
]

module _ (size : ℕ) where
  given-IsUniform :
      (s : Buffers) (o : Option (List ℕ × List (List ℕ)))
      → IsUniform size s
      → ((b : List ℕ) (free : List (List ℕ))
          → o ≡ some (b, free)
          → (length b ≡ size) × All (λ c. length c ≡ size) free)
      → IsUniform size (let (b, pool) = given s.pool o in record { pool = pool; held = b ∷ s.held })
  given-IsUniform s none h found = record {
    sized = h.sized;
    in_pool = h.in_pool;
    in_use = (length-zeros s.pool.size ∙ h.sized, h.in_use);
  }
  given-IsUniform s (some (b, free)) h found =
      let (fits, rest) = found b free refl in
      record { sized = h.sized; in_pool = rest; in_use = (fits, h.in_use) }

  given_back-IsUniform :
      (s : Buffers) (o : Option (List ℕ × List (List ℕ)))
      → IsUniform size s
      → ((b : List ℕ) (held : List (List ℕ))
          → o ≡ some (b, held)
          → (length b ≡ size) × All (λ c. length c ≡ size) held)
      → IsUniform size (given_back s o)
  unfolding put
  given_back-IsUniform s none h found = h
  given_back-IsUniform s (some (b, held)) h found =
      let (fits, rest) = found b held refl in
      record { sized = h.sized; in_pool = (fits, h.in_pool); in_use = rest }

  use_pool-IsUniform : (s : Buffers) (u : Use) → IsUniform size s → IsUniform size (use_pool s u)
  unfolding use_pool get
  use_pool-IsUniform s (takes none) h =
      given-IsUniform s none h (λ b free e. absurd (some-ne-none (b, free) (sym e)))
  use_pool-IsUniform s (takes (some i)) h =
      given-IsUniform s (take_out i s.pool.free) h
        (λ b free. take_out-All (λ c. length c ≡ size) i s.pool.free b free h.in_pool)
  use_pool-IsUniform s (gives i) h =
      given_back-IsUniform s (take_out i s.held) h
        (λ b held. take_out-All (λ c. length c ≡ size) i s.held b held h.in_use)

  run-IsUniform : (s : Buffers) (us : List Use) → IsUniform size s → IsUniform size (run s us)
  unfolding run
  run-IsUniform s [] h = h
  run-IsUniform s (u ∷ us) h = run-IsUniform (use_pool s u) us (use_pool-IsUniform s u h)

  -- However the reverse proxies take buffers from the pool and put them back, and whichever of them
  -- the pool hands out again, every buffer that they hold has the configured size.
  pub run-new_proxy_buffer_pool :
      (us : List Use)
      → All
          (λ b. length b ≡ size)
          (run (record { pool = new_proxy_buffer_pool size; held = [] }) us).held
  unfolding new_proxy_buffer_pool
  run-new_proxy_buffer_pool us =
      (run-IsUniform (record { pool = record { size = size; free = [] }; held = [] }) us
        (record { sized = refl; in_pool = tt; in_use = tt })).in_use
