-- ===== src/Mpi/Ants/Nearest.antt =====
-- `get_f1` of ants_simulation_25.c finds the nearest food source.
use nsdscourse.Base.{
  ℕ, ◌≤◌, ◌<◌, ◌≡◌, refl, inl, inr, List, [], ◌∷◌, arith, ltb, All, Among, Bool-cases,
}
use nsdscourse.Mpi.Ants.{Floats, nearest, get_f1}

module _ {F D : Type 0} (floats : Floats F D) (size : F → ℕ) (pos : F) where
  -- The difference `d` leads to a food source of the list, and none is nearer.
  pub record IsNearest (d : F) (food : List F) : Type 0 where
    pub source : F
    pub among : Among source food
    pub at : d ≡ floats.sub source pos
    pub least : All (λ g. size d ≤ size (floats.sub g pos)) food

  -- A nearer source in front of those that the loop has passed.
  take_nearer :
      (d f s : F) (fs : List F)
      → size (floats.sub f pos) < size (floats.sub s pos)
      → IsNearest d (f ∷ fs)
      → IsNearest d (s ∷ (f ∷ fs))
  take_nearer d f s fs h n = record {
    source = n.source;
    among = inr n.among;
    at = n.at;
    least = (omega (arith, h, n.least.0), n.least);
  }

  -- A source that is not nearer is passed.
  pass_farther :
      (d f s : F) (fs : List F)
      → size (floats.sub s pos) ≤ size (floats.sub f pos)
      → IsNearest d (s ∷ fs)
      → IsNearest d (s ∷ (f ∷ fs))
  pass_farther d f s fs h n = record {
    source = n.source;
    among = elim n.among [ inl e ↦ inl e | inr m ↦ inr (inr m) ];
    at = n.at;
    least = (n.least.0, (omega (arith, h, n.least.0), n.least.1));
  }

  nearest-IsNearest :
      ((a b : F) → floats.shorter a b ≡ ltb (size a) (size b))
      → (s : F) (food : List F) → IsNearest (nearest floats pos (floats.sub s pos) food) (s ∷ food)
  unfolding nearest
  nearest-IsNearest shorter_lem s [] = record {
    source = s;
    among = inl refl;
    at = refl;
    least = (omega arith, tt);
  }
  nearest-IsNearest shorter_lem s (f ∷ fs) =
      let compared = shorter_lem (floats.sub f pos) (floats.sub s pos) in
      elim (Bool-cases (floats.shorter (floats.sub f pos) (floats.sub s pos))) [
        | inl e ↦ rw e (
            take_nearer _ f s fs (ground (arith, compared, e)) (nearest-IsNearest shorter_lem f fs))
        | inr e ↦ rw e (
            pass_farther _ f s fs (ground (arith, compared, e))
              (nearest-IsNearest shorter_lem s fs))
      ]

  -- With at least one food source, and where `fabs` and `<` compare by a size: `get_f1` scales the
  -- difference to a food source of the array, and no other food source is nearer.
  pub get_f1-IsNearest :
      (first : F) (rest : List F)
      → ((a b : F) → floats.shorter a b ≡ ltb (size a) (size b))
      → (d : F) × (IsNearest d (first ∷ rest)
          × (get_f1 floats pos (first ∷ rest) ≡ floats.scale_f1 d))
  unfolding get_f1
  get_f1-IsNearest first rest h = (_, (nearest-IsNearest h first rest, refl))
