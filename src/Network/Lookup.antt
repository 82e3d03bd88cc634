-- ===== src/Network/Lookup.antt =====
-- The lookups of src/network.cpp against the lists that they search.
use graphx_docker.Base.{
  ◌≡◌, refl, ap, subst, true, false, List, [], ◌∷◌, ◌++◌, ◌⊎◌, inl, inr, Bytes, Result, ok, err,
  All, Bool-cases,
}
use graphx_docker.Attributes.{bytes_equal}
use graphx_docker.Attributes.Order.{bytes_equal→eq, bytes_equal_refl}
use graphx_docker.Network.{
  NetworkInfrastructureConfig, NetworkError, unknown_network, unknown_switch, unknown_router,
  unknown_edge_path, find_by, network, network_switch, router, edge_path,
}

-- What a lookup by a key has to give: the first value with the id, or the exception for the id
-- where no value has it.
abbrev pub FindsFirst :
    {A : Type 0}
    → (A → Bytes)
    → (Bytes → NetworkError)
    → List A
    → Bytes
    → Result NetworkError A
    → Type 0
FindsFirst {A} key error values id result =
    ((front : List A) × (a : A) × (back : List A) × (result ≡ ok a)
      × (values ≡ front ++ (a ∷ back))
      × (key a ≡ id)
      × All (λ b. ¬ (key b ≡ id)) front)
    ⊎ ((result ≡ err (error id)) × All (λ b. ¬ (key b ≡ id)) values)

other : (a b : Bytes) → bytes_equal a b ≡ false → ¬ (a ≡ b)
other a b h e =
    let same : bytes_equal a b ≡ true =
      subst (λ c. bytes_equal a c ≡ true) e (bytes_equal_refl a) in
    cc

behind :
    {A : Type 0} (key : A → Bytes) (error : Bytes → NetworkError) (a : A) (values : List A)
    (id : Bytes) {result : Result NetworkError A}
    → ¬ (key a ≡ id)
    → FindsFirst key error values id result
    → FindsFirst key error (a ∷ values) id result
behind key error a values id differs (inl (front, b, back, e, split, same, before)) =
    inl (a ∷ front, b, back, e, ap (◌∷◌ a) split, same, (differs, before))
behind key error a values id differs (inr (e, before)) = inr (e, (differs, before))

find_by-FindsFirst :
    {A : Type 0} (key : A → Bytes) (error : Bytes → NetworkError) (values : List A) (id : Bytes)
    → FindsFirst key error values id (find_by key error id values)
unfolding find_by
find_by-FindsFirst key error [] id = inr (refl, tt)
find_by-FindsFirst key error (a ∷ values) id = elim (Bool-cases (bytes_equal (key a) id)) [
  | inl e ↦ inl ([], a, values, rw e refl, refl, bytes_equal→eq (key a) id e, tt)
  | inr e ↦
      rw e
        (behind key error a values id (other (key a) id e) (find_by-FindsFirst key error values id))
]

-- Each of the four lookups gives the first definition of its list that has the id, and throws, with
-- the id in its message, exactly where none has it.
pub lookups-FindsFirst :
    {F : Type 0} (config : NetworkInfrastructureConfig F) (id : Bytes)
    → FindsFirst (λ v. v.id) unknown_network config.networks id (network config id)
      × FindsFirst (λ v. v.id) unknown_switch config.switches id (network_switch config id)
      × FindsFirst (λ v. v.id) unknown_router config.routers id (router config id)
      × FindsFirst (λ v. v.edge_id) unknown_edge_path config.edge_paths id (edge_path config id)
unfolding network network_switch router edge_path
lookups-FindsFirst config id = (
  find_by-FindsFirst (λ v. v.id) unknown_network config.networks id,
  find_by-FindsFirst (λ v. v.id) unknown_switch config.switches id,
  find_by-FindsFirst (λ v. v.id) unknown_router config.routers id,
  find_by-FindsFirst (λ v. v.edge_id) unknown_edge_path config.edge_paths id,
)
