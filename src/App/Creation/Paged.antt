-- ===== src/App/Creation/Paged.antt =====
-- The devices that a definition by group gets (updateDeploymentConstructor of app/app.go), from an
-- inventory whose devices stay the same while it is read.
use deployments.Shared.{
  ℕ, zero, suc, ◌+◌, ◌-◌, ◌*◌, ◌≡◌, refl, sym, ap, ◌∙◌, ◌≤◌, ◌<◌, inl, inr, String, true, false,
  List, [], ◌∷◌, ◌++◌, arith,
}
use deployments.Shared.Arrays.{length-append}
use deployments.Shared.Tests.{ltb, nat_eq, Bool-cases}
use deployments.Shared.Lists.{length, take, drop}
use deployments.Store.Errors.{ok}
use deployments.Store.World.{World}
use deployments.Store.Exec.{◌>>=◌}
use deployments.App.Creation.{Inventory, collect_devices}

-- PerPageInventoryDevices
abbrev pub per_page : ℕ
per_page = 512

-- a page of the devices, with the number of them all
abbrev pub page_of : List String → ℕ → List String × ℕ
page_of ds page = (take per_page (drop ((page - 1) * per_page) ds), length ds)

drop-append : (xs ys : List String) → drop (length xs) (xs ++ ys) ≡ ys
drop-append [] ys = refl
drop-append (x ∷ xs) ys = drop-append xs ys

take-drop : (n : ℕ) (xs : List String) → take n xs ++ drop n xs ≡ xs
take-drop zero xs = refl
take-drop (suc n) [] = refl
take-drop (suc n) (x ∷ xs) = ap (λ r. x ∷ r) (take-drop n xs)

append_assoc : (xs ys zs : List String) → (xs ++ ys) ++ zs ≡ xs ++ (ys ++ zs)
append_assoc [] ys zs = refl
append_assoc (x ∷ xs) ys zs = ap (λ r. x ∷ r) (append_assoc xs ys zs)

take_all : (n : ℕ) (xs : List String) → length xs ≤ n → take n xs ≡ xs
take_all zero [] h = refl
take_all zero (x ∷ xs) h = absurd (omega (arith, h))
take_all (suc n) [] h = refl
take_all (suc n) (x ∷ xs) h = ap (λ r. x ∷ r) (take_all n xs (omega (arith, h)))

length-take : (n : ℕ) (xs : List String) → n ≤ length xs → length (take n xs) ≡ n
length-take zero xs h = refl
length-take (suc n) [] h = absurd (omega (arith, h))
length-take (suc n) (x ∷ xs) h = omega (arith, length-take n xs (omega (arith, h)))

length_parts : (n : ℕ) (xs : List String) → length (take n xs) + length (drop n xs) ≡ length xs
length_parts n xs = sym (length-append (take n xs) (drop n xs)) ∙ ap length (take-drop n xs)

within : (a b : ℕ) → ltb a b ≡ false → b ≤ a
within a b h = ground arith

beyond : (a b : ℕ) → ltb a b ≡ true → suc a ≤ b
beyond a b h = ground arith

module _ (inventory : Inventory) (tenant group : String) where
  -- the inventory answers with the pages of the devices, and does not touch the database
  abbrev pub IsPaged : List String → Type 0
  IsPaged ds =
      (page : ℕ) (w : World) → inventory.search tenant group page w ≡ (ok (page_of ds page), w)

  collect-last :
      (fuel page n : ℕ) (xs c : List String) (w : World)
      → inventory.search tenant group page w ≡ (ok (c, n), w)
      → 1 ≤ length c
      → length (xs ++ c) ≡ n
      → collect_devices inventory (suc fuel) tenant group page xs w ≡ (ok (xs ++ c), w)
  unfolding collect_devices ◌>>=◌
  collect-last fuel page n xs c w found some full =
      let a : ltb n 1 ≡ false = ground (arith, some, full, length-append xs c) in
      let b : ltb (length c) 1 ≡ false = ground (arith, some) in
      let d : nat_eq (length (xs ++ c)) n ≡ true = ground (arith, full) in rw (found, a, b, d) refl

  collect-next :
      (fuel page n : ℕ) (xs c : List String) (w : World)
      → inventory.search tenant group page w ≡ (ok (c, n), w)
      → 1 ≤ length c
      → length (xs ++ c) < n
      → collect_devices inventory (suc fuel) tenant group page xs w
        ≡ collect_devices inventory fuel tenant group (suc page) (xs ++ c) w
  unfolding collect_devices ◌>>=◌
  collect-next fuel page n xs c w found some more =
      let a : ltb n 1 ≡ false = ground (arith, more) in
      let b : ltb (length c) 1 ≡ false = ground (arith, some) in
      let d : nat_eq (length (xs ++ c)) n ≡ false = ground (arith, more) in rw (found, a, b, d) refl

  page_at :
      (n : ℕ) (xs ys ds : List String)
      → xs ++ ys ≡ ds
      → length xs ≡ n * per_page
      → page_of ds (suc n) ≡ (take per_page ys, length ds)
  page_at n xs ys ds whole at =
      let offset : (suc n - 1) * per_page ≡ length xs = omega (arith, at) in
      let rest : drop ((suc n - 1) * per_page) ds ≡ ys =
        ap (λ k. drop k ds) offset ∙ ap (drop (length xs)) (sym whole) ∙ drop-append xs ys in
      ap (λ r. (take per_page r, length ds)) rest

  collect-rest :
      (ds : List String) (w : World)
      → IsPaged ds
      → (fuel n : ℕ) (xs ys : List String) → xs ++ ys ≡ ds
      → length xs ≡ n * per_page
      → 1 ≤ length ys
      → length ys ≤ fuel * per_page
      → collect_devices inventory fuel tenant group (suc n) xs w ≡ (ok ds, w)
  collect-rest ds w paged zero n xs ys whole at some enough = absurd (omega (arith, some, enough))
  collect-rest ds w paged (suc fuel) n xs ys whole at some enough =
      let found = paged (suc n) w ∙ ap (λ p. (ok p, w)) (page_at n xs ys ds whole at) in
      elim (Bool-cases (ltb per_page (length ys))) [
        | inr last ↦
            let all : take per_page ys ≡ ys =
              take_all per_page ys (within per_page (length ys) last) in
            let full : xs ++ take per_page ys ≡ ds = ap (λ r. xs ++ r) all ∙ whole in
            collect-last fuel (suc n) (length ds) xs (take per_page ys) w found
              (omega (arith, some, ap length all)) (ap length full)
            ∙ ap (λ r. (ok r, w)) full
        | inl more ↦
            let many : suc per_page ≤ length ys = beyond per_page (length ys) more in
            let c = take per_page ys in
            let taken : length c ≡ per_page = length-take per_page ys (omega (arith, many)) in
            let parts = length_parts per_page ys in
            let split : (xs ++ c) ++ drop per_page ys ≡ ds =
              append_assoc xs c (drop per_page ys)
              ∙ ap (λ r. xs ++ r) (take-drop per_page ys)
              ∙ whole in
            let total = length-append (xs ++ c) (drop per_page ys) in
            let front = length-append xs c in
            collect-next fuel (suc n) (length ds) xs c w found (omega (arith, taken))
              (omega (arith, ap length split, total, parts, taken, many))
            ∙ collect-rest ds w paged fuel (suc n) (xs ++ c) (drop per_page ys) split
                (omega (arith, front, taken, at)) (omega (arith, parts, taken, many))
                (omega (arith, parts, taken, enough))
      ]

  -- An inventory answers with the pages of a list of at least one device. With fuel for its pages,
  -- the search from the first page on returns exactly the devices of the list, in their order,
  -- and ends with the page that completes them.
  pub collect_devices-All :
      (ds : List String) (fuel : ℕ) (w : World)
      → IsPaged ds
      → 1 ≤ length ds
      → length ds ≤ fuel * per_page
      → collect_devices inventory fuel tenant group 1 [] w ≡ (ok ds, w)
  collect_devices-All ds fuel w paged some enough =
      collect-rest ds w paged fuel 0 [] ds refl refl some enough
