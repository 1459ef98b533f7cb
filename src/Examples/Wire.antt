-- ===== src/Examples/Wire.antt =====
-- Encodings as lists of numbers that can be read back, built from parts.
use ori.Base.{ℕ, zero, suc, ◌≡◌, refl, true, Option, none, some, List, [], ◌∷◌, length, ◌>>=◌}
use ori.Types.Hash.{Bytes, is_filled}
use ori.External.{Codec}

-- `put` writes in front of what follows, `get` reads from the front.
pub record Wire (A : Type 0) : Type 0 where
  pub put : A → Bytes → Bytes
  pub get : Bytes → Option (A × Bytes)
  pub get-put : (a : A) (rest : Bytes) → get (put a rest) ≡ some (a, rest)

abbrev nat_get : Bytes → Option (ℕ × Bytes)
nat_get [] = none
nat_get (n ∷ rest) = some (n, rest)

abbrev pub nat_wire : Wire ℕ
nat_wire = record { put = λ n rest. n ∷ rest; get = nat_get; get-put = λ n rest. refl }

module _ {A B : Type 0} where
  abbrev pair_put : Wire A → Wire B → A × B → Bytes → Bytes
  pair_put u w (a, b) rest = u.put a (w.put b rest)

  abbrev pair_get : Wire A → Wire B → Bytes → Option ((A × B) × Bytes)
  pair_get u w bs = do (a, rest) ← u.get bs; (b, rest') ← w.get rest; some ((a, b), rest')

  pub pair_get-put :
      (u : Wire A) (w : Wire B) (p : A × B) (rest : Bytes)
      → pair_get u w (pair_put u w p rest) ≡ some (p, rest)
  pair_get-put u w (a, b) rest = rw (u.get-put a (w.put b rest)) (rw (w.get-put b rest))

  infixr 40 ◌&◌
  abbrev pub ◌&◌ : Wire A → Wire B → Wire (A × B)
  u & w = record { put = pair_put u w; get = pair_get u w; get-put = pair_get-put u w }

  abbrev iso_get : (B → A) → Wire B → Bytes → Option (A × Bytes)
  iso_get from w bs = do (b, rest) ← w.get bs; some (from b, rest)

  pub iso_get-put :
      (to : A → B) (from : B → A)
      → ((a : A) → from (to a) ≡ a)
      → (w : Wire B) (a : A) (rest : Bytes) → iso_get from w (w.put (to a) rest) ≡ some (a, rest)
  iso_get-put to from law w a rest = rw (w.get-put (to a) rest) (rw (law a))

  abbrev pub iso_wire : (to : A → B) (from : B → A) → ((a : A) → from (to a) ≡ a) → Wire B → Wire A
  iso_wire to from law w = record {
    put = λ a rest. w.put (to a) rest;
    get = iso_get from w;
    get-put = iso_get-put to from law w;
  }

module _ {A : Type 0} where
  abbrev pub put_all : Wire A → List A → Bytes → Bytes
  put_all w [] rest = rest
  put_all w (a ∷ as') rest = w.put a (put_all w as' rest)

  abbrev pub get_all : Wire A → ℕ → Bytes → Option (List A × Bytes)
  get_all w zero bs = some ([], bs)
  get_all w (suc n) bs = do
    (a, rest) ← w.get bs
    (as', rest') ← get_all w n rest
    some (a ∷ as', rest')

  pub get_all-put_all :
      (w : Wire A) (as' : List A) (rest : Bytes)
      → get_all w (length as') (put_all w as' rest) ≡ some (as', rest)
  get_all-put_all w [] rest = refl
  get_all-put_all w (a ∷ as') rest =
      rw (w.get-put a (put_all w as' rest)) (rw (get_all-put_all w as' rest))

  abbrev list_get : Wire A → Bytes → Option (List A × Bytes)
  list_get w [] = none
  list_get w (n ∷ bs) = get_all w n bs

  abbrev pub list_wire : Wire A → Wire (List A)
  list_wire w = record {
    put = λ as' rest. length as' ∷ put_all w as' rest;
    get = list_get w;
    get-put = λ as' rest. get_all-put_all w as' rest;
  }

  abbrev option_put : Wire A → Option A → Bytes → Bytes
  option_put w none rest = 0 ∷ rest
  option_put w (some a) rest = 1 ∷ w.put a rest

  pub option_put-filled :
      (w : Wire A) (o : Option A) (rest : Bytes) → is_filled (option_put w o rest) ≡ true
  option_put-filled w none rest = refl
  option_put-filled w (some a) rest = refl

  abbrev option_get : Wire A → Bytes → Option (Option A × Bytes)
  option_get w [] = none
  option_get w (zero ∷ bs) = some (none, bs)
  option_get w (suc n ∷ bs) = do (a, rest) ← w.get bs; some (some a, rest)

  pub option_get-put :
      (w : Wire A) (o : Option A) (rest : Bytes)
      → option_get w (option_put w o rest) ≡ some (o, rest)
  option_get-put w none rest = refl
  option_get-put w (some a) rest = rw (w.get-put a rest)

  abbrev pub option_wire : Wire A → Wire (Option A)
  option_wire w = record { put = option_put w; get = option_get w; get-put = option_get-put w }

  abbrev decode : Wire A → Bytes → Option A
  decode w bs = do (a, rest) ← w.get bs; some a

  pub decode_lem : (w : Wire A) (a : A) → decode w (w.put a []) ≡ some a
  decode_lem w a = rw (w.get-put a [])

  abbrev pub codec : Wire A → Codec A
  codec w = record {
    serialize = λ a. w.put a [];
    deserialize = decode w;
    deserialize-serialize = decode_lem w;
  }
