-- ===== src/Config/Loading/Keys.antt =====
-- The order in which internal/config/config.go looks for the API key and for the other settings, and the
-- keys that it generates.
use mathlib.Core.List.{reverse-cons, reverse-reverse}
use dockhand.Prelude.{
  Option, Bool-cases, inl, inr, ◌&&◌, leb, subst, ℕ, ◌/◌, ◌%◌, ◌*◌, List, reverse, All, All-append,
  trim_left, err, Result, ◌≡◌, ◌≤◌, refl, false, none, some, [], ◌∷◌, arith, length, Text, codes,
  is_empty, trim_space, ok,
}
use dockhand.Config.{Config}
use dockhand.Config.Loading.{
  or_text, apply_defaults, apply_env_overrides, resolve_api_key, KeyStore, Outside, load, fresh_key,
  stored_key, generate_key, settle, hex_digit, hex_encode, read_config,
}

or_text_set : (s d : Text) → is_empty s ≡ false → or_text s d ≡ s
or_text_set [] d h = cc
or_text_set (c ∷ s) d h = refl

resolve_api_key_set :
    (store : KeyStore) (cfg : Config)
    → is_empty cfg.server.api_key ≡ false
    → resolve_api_key store cfg ≡ ok (cfg, none)
unfolding resolve_api_key
resolve_api_key_set store cfg h = rw h refl

-- Where DOCKHAND_API_KEY is set and the configuration file can be read, `Load` succeeds with that key
-- and writes no key: the variable goes before the file, and nothing is read or generated.
load_env_key :
    (o : Outside) (path : Text) (cfg : Config)
    → is_empty (o.getenv (codes "DOCKHAND_API_KEY")) ≡ false
    → read_config o.unmarshal path o.file ≡ ok cfg
    → (c : Config) × (load o path ≡ ok (c, none))
      × (c.server.api_key ≡ o.getenv (codes "DOCKHAND_API_KEY"))
unfolding load resolve_api_key apply_defaults apply_env_overrides
load_env_key o path cfg h e =
    let key = o.getenv (codes "DOCKHAND_API_KEY") in
    let filled = apply_defaults o.hostname (apply_env_overrides o.getenv cfg) in
    let taken = or_text_set key cfg.server.api_key h in
    (filled, rw e (resolve_api_key_set o.key_store filled (rw taken h)), taken)

-- rand.Read fills the whole buffer or fails.
abbrev pub Fills : Result (List ℕ) → Type 0
Fills (err e) = Unit
Fills (ok b) = length b ≡ 32

abbrev IsVisible : ℕ → Type 0
IsVisible c = 33 ≤ c

trim_left-All : (s : Text) → All IsVisible s → trim_left s ≡ s
trim_left-All [] h = refl
trim_left-All (c ∷ s) (v, h) = ground (arith, v)

All-reverse : (s : Text) → All IsVisible s → All IsVisible (reverse s)
All-reverse [] h = tt
All-reverse (c ∷ s) (v, h) =
    rw (reverse-cons c s) (All-append IsVisible (reverse s) (c ∷ []) (All-reverse s h) (v, tt))

trim_space-All : (s : Text) → All IsVisible s → trim_space s ≡ s
unfolding trim_space
trim_space-All s h =
    rw (trim_left-All s h, trim_left-All (reverse s) (All-reverse s h)) (reverse-reverse s)

hex_digit-IsVisible : (n : ℕ) → 33 ≤ hex_digit n
hex_digit-IsVisible n = ground arith

hex_encode-All : (b : List ℕ) → All IsVisible (hex_encode b)
hex_encode-All [] = tt
hex_encode-All (x ∷ b) =
    (hex_digit-IsVisible (x / 16), (hex_digit-IsVisible (x % 16), hex_encode-All b))

length-hex_encode : (b : List ℕ) → length (hex_encode b) ≡ 2 * length b
length-hex_encode [] = refl
length-hex_encode (x ∷ b) = omega (arith, length-hex_encode b)

resolve_api_key_again :
    (store : KeyStore) (cfg c : Config) (key : Text)
    → resolve_api_key store cfg ≡ ok (c, some key)
    → 32 ≤ length key
    → trim_space key ≡ key
    → resolve_api_key (record store { persisted = some key }) cfg ≡ ok (c, none)
unfolding resolve_api_key
resolve_api_key_again store cfg c key e h t = ground arith

-- A text that is read back from the file as it was written there.
abbrev IsKey : Text → Type 0
IsKey key = (32 ≤ length key) × (trim_space key ≡ key)

hex_encode-IsKey : (b : List ℕ) → length b ≡ 32 → IsKey (hex_encode b)
hex_encode-IsKey b h =
    (omega (arith, length-hex_encode b, h), trim_space-All (hex_encode b) (hex_encode-All b))

-- What a key chain writes to the file, if it writes, is such a text.
abbrev WritesKey : Result (Config × Option Text) → Type 0
WritesKey (err e) = Unit
WritesKey (ok (c, none)) = Unit
WritesKey (ok (c, some key)) = IsKey key

fresh_key-WritesKey :
    (store : KeyStore) (cfg : Config) (r : Result (List ℕ))
    → Fills r
    → WritesKey (fresh_key store cfg (generate_key r))
fresh_key-WritesKey store cfg (err e) h = tt
fresh_key-WritesKey store cfg (ok b) h = elim (Bool-cases (store.dir_made && store.file_written)) [
  | inl e ↦ rw e (hex_encode-IsKey b h)
  | inr e ↦ rw e tt
]

stored_key-WritesKey :
    (store : KeyStore) (cfg : Config) (p : Option Text)
    → Fills store.random
    → WritesKey (stored_key store cfg p)
stored_key-WritesKey store cfg none h = fresh_key-WritesKey store cfg store.random h
stored_key-WritesKey store cfg (some kept) h =
    elim (Bool-cases (leb 32 (length (trim_space kept)))) [
      | inl e ↦ rw e tt
      | inr e ↦ rw e (fresh_key-WritesKey store cfg store.random h)
    ]

resolve_api_key-WritesKey :
    (store : KeyStore) (cfg : Config) → Fills store.random → WritesKey (resolve_api_key store cfg)
unfolding resolve_api_key
resolve_api_key-WritesKey store cfg h = elim (Bool-cases (is_empty cfg.server.api_key)) [
  | inl e ↦ rw e (stored_key-WritesKey store cfg store.persisted h)
  | inr e ↦ rw e tt
]

abbrev pub next_start : Text → Outside → Outside
next_start key o = record o { key_store = record o.key_store { persisted = some key } }

settle_again :
    (o : Outside) (r : Result Config) (c : Config) (key : Text)
    → Fills o.key_store.random
    → settle o r ≡ ok (c, some key)
    → settle (next_start key o) r ≡ ok (c, none)
settle_again o (err m) c key h e = cc
settle_again o (ok cfg) c key h e =
    let filled = apply_defaults o.hostname (apply_env_overrides o.getenv cfg) in
    let (long, trimmed) = subst WritesKey e (resolve_api_key-WritesKey o.key_store filled h) in
    resolve_api_key_again o.key_store filled c key e long trimmed

-- If `Load` generates a key and writes it to its file, the next start with the same configuration file
-- and environment finds it there: it returns the same configuration, with that key, and writes
-- nothing. The source of random bytes fills all the 32 bytes it is asked for or fails.
pub load_again :
    (o : Outside) (path : Text) (c : Config) (key : Text)
    → Fills o.key_store.random
    → load o path ≡ ok (c, some key)
    → load (next_start key o) path ≡ ok (c, none)
unfolding load
load_again o path c key h e = settle_again o (read_config o.unmarshal path o.file) c key h e
