-- ===== src/DataSource/Outcomes.antt =====
-- What a request to the data source in use comes to: the data with their meta information, or the
-- error code of what went wrong.
use alto.Prelude.{ℕ, List, [], none, some, ◌⊎◌, inl, inr, ◌≡◌, refl, Option-cases}
use alto.Prelude.Int.{ℤ, negsuc}
use alto.DataSource.{
  Meta, PortalReply, FileReply, Source, World, answered, connection_error, protocol_error, contents,
  not_opened, not_parsed, retrieve,
}

module _ {A : Type 0} where
  -- The source supplies the data: a portal server with meta information, a file with a time to live
  -- that is given and no version.
  abbrev pub Supplies : ℕ → World A → Source → A → Meta → Type 0
  Supplies ttl world source a meta =
      ((server : List ℕ × ℕ) × (source.proto ≡ some server)
        × (world.portal server ≡ answered a meta))
      ⊎ ((source.proto ≡ none)
          × (world.file source.filename ≡ contents a)
          × (meta ≡ record { ttl = ttl; version = [] }))

  -- The source fails: -3 stands for the connection and -4 for the protocol of the portal server, -5
  -- for a file that is not opened and -6 for one that is not read.
  abbrev pub Fails : World A → Source → ℤ → Type 0
  Fails world source error =
      ((server : List ℕ × ℕ) × (source.proto ≡ some server)
        × (((world.portal server ≡ connection_error) × (error ≡ negsuc 2))
            ⊎ ((world.portal server ≡ protocol_error) × (error ≡ negsuc 3))))
      ⊎ ((source.proto ≡ none)
          × (((world.file source.filename ≡ not_opened) × (error ≡ negsuc 4))
              ⊎ ((world.file source.filename ≡ not_parsed) × (error ≡ negsuc 5))))

  reply_cases :
      (r : PortalReply A)
      → ((a : A) × (meta : Meta) × (r ≡ answered a meta))
        ⊎ (r ≡ connection_error)
        ⊎ (r ≡ protocol_error)
  reply_cases (answered a meta) = inl (a, meta, refl)
  reply_cases connection_error = inr (inl refl)
  reply_cases protocol_error = inr (inr refl)

  file_cases :
      (r : FileReply A) → ((a : A) × (r ≡ contents a)) ⊎ (r ≡ not_opened) ⊎ (r ≡ not_parsed)
  file_cases (contents a) = inl (a, refl)
  file_cases not_opened = inr (inl refl)
  file_cases not_parsed = inr (inr refl)

  -- A request ends with what the source supplies, or with the code of its failure.
  pub retrieve_cases :
      (ttl : ℕ) (world : World A) (source : Source)
      → ((a : A) × (meta : Meta) × (retrieve ttl world source ≡ inr (a, meta))
          × Supplies ttl world source a meta)
        ⊎ ((error : ℤ) × (retrieve ttl world source ≡ inl error) × Fails world source error)
  unfolding retrieve
  retrieve_cases ttl world source = elim (Option-cases source.proto) [
    | inr (server, e) ↦ elim (reply_cases (world.portal server)) [
      | inl (a, meta, f) ↦ inl (a, meta, rw (e, f, retrieve) refl, inl (server, e, f))
      | inr (inl f) ↦ inr (negsuc 2, rw (e, f, retrieve) refl, inl (server, e, inl (f, refl)))
      | inr (inr f) ↦ inr (negsuc 3, rw (e, f, retrieve) refl, inl (server, e, inr (f, refl)))
    ]
    | inl e ↦ elim (file_cases (world.file source.filename)) [
      | inl (a, f) ↦
          inl (a, record { ttl = ttl; version = [] }, rw (e, f, retrieve) refl, inr (e, f, refl))
      | inr (inl f) ↦ inr (negsuc 4, rw (e, f, retrieve) refl, inr (e, inl (f, refl)))
      | inr (inr f) ↦ inr (negsuc 5, rw (e, f, retrieve) refl, inr (e, inr (f, refl)))
    ]
  ]
