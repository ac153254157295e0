-- ===== src/Notification/Channels/Exact.antt =====
-- Which channels are listened for.
use rest_trans.Prelude.{◌≡◌, refl, sym, subst, inl, inr, List, [], ◌∷◌, Text}
use rest_trans.Notification.Channels.{
  channel_of, add_channel, add_names, names_in, add_schemas, build_channels,
}
use rest_trans.Notification.Channels.Grows.{
  Has, AreApart, Grows, Grows-refl, Grows-trans, Grows-weaken, add_channel-Grows, Has-add_channel,
}

-- The channel of one of these tables.
abbrev IsNamed : Text → List Text → Text → Type 0
IsNamed s names c = (t : Text) × Has t names × (c ≡ channel_of s t)

add_names-Grows :
    (s : Text) (names xs : List Text) → Grows (IsNamed s names) xs (add_names s names xs)
unfolding add_names
add_names-Grows s [] xs = Grows-refl (IsNamed s []) xs
add_names-Grows s (t ∷ names) xs =
    let ys = add_channel xs (channel_of s t) in
    Grows-weaken _ (IsNamed s (t ∷ names)) xs (add_names s names ys)
      (λ c k. elim k [ inl e ↦ (t, inl refl, e) | inr (u, h, e) ↦ (u, inr h, e) ])
      (Grows-trans (λ d. d ≡ channel_of s t) (IsNamed s names) xs ys (add_names s names ys)
        (add_channel-Grows xs (channel_of s t)) (add_names-Grows s names ys))

Has-add_names :
    (s t : Text) (names xs : List Text) → Has t names → Has (channel_of s t) (add_names s names xs)
unfolding add_names
Has-add_names s t [] xs h = absurd h
Has-add_names s t (u ∷ names) xs (inl e) =
    (add_names-Grows s names (add_channel xs (channel_of s u))).keeps (channel_of s t) (
      subst (λ v. Has (channel_of s v) (add_channel xs (channel_of s u))) (sym e)
        (Has-add_channel xs (channel_of s u)))
Has-add_names s t (u ∷ names) xs (inr h) =
    Has-add_names s t names (add_channel xs (channel_of s u)) h

-- The channel of a table of one of these schemas.
abbrev pub IsOfTable : List (Text × List Text) → List Text → Text → Type 0
IsOfTable tables schemas c = (s : Text) × Has s schemas × IsNamed s (names_in s tables) c

add_schemas-Grows :
    (tables : List (Text × List Text)) (schemas xs : List Text)
    → Grows (IsOfTable tables schemas) xs (add_schemas tables schemas xs)
unfolding add_schemas
add_schemas-Grows tables [] xs = Grows-refl (IsOfTable tables []) xs
add_schemas-Grows tables (s ∷ schemas) xs =
    let names = names_in s tables in
    let ys = add_names s names xs in
    Grows-weaken _ (IsOfTable tables (s ∷ schemas)) xs (add_schemas tables schemas ys)
      (λ c k. elim k [ inl n ↦ (s, inl refl, n) | inr (u, h, n) ↦ (u, inr h, n) ])
      (Grows-trans (IsNamed s names) (IsOfTable tables schemas) xs ys
        (add_schemas tables schemas ys) (add_names-Grows s names xs)
        (add_schemas-Grows tables schemas ys))

Has-add_schemas :
    (tables : List (Text × List Text)) (schemas xs : List Text) (s t : Text)
    → Has s schemas
    → Has t (names_in s tables)
    → Has (channel_of s t) (add_schemas tables schemas xs)
unfolding add_schemas
Has-add_schemas tables [] xs s t h k = absurd h
Has-add_schemas tables (u ∷ schemas) xs s t (inl e) k =
    let ys = add_names u (names_in u tables) xs in
    (add_schemas-Grows tables schemas ys).keeps (channel_of s t) (
      subst (λ v. Has (channel_of s t) (add_names v (names_in v tables) xs)) e
        (Has-add_names s t (names_in s tables) xs k))
Has-add_schemas tables (u ∷ schemas) xs s t (inr h) k =
    Has-add_schemas tables schemas (add_names u (names_in u tables) xs) s t h k

-- Just the tables' channels, each once.
pub record IsExact (tables : List (Text × List Text)) (schemas channels : List Text) : Type 0 where
  pub complete :
      (s t : Text) → Has s schemas → Has t (names_in s tables) → Has (channel_of s t) channels
  pub sound : (c : Text) → Has c channels → IsOfTable tables schemas c
  pub distinct : AreApart channels

-- Whatever the schemas and their tables, the listener listens for the channel of every table of
-- these schemas, for no other channel, and for none twice.
pub build_channels-IsExact :
    (schemas : List Text) (tables : List (Text × List Text))
    → IsExact tables schemas (build_channels schemas tables)
unfolding build_channels
build_channels-IsExact schemas tables =
    let g = add_schemas-Grows tables schemas [] in
    record {
      complete = Has-add_schemas tables schemas [];
      sound = λ c h. elim (g.added c h) [ inl k ↦ absurd k | inr p ↦ p ];
      distinct = g.apart tt;
    }
