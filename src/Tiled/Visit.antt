-- ===== src/Tiled/Visit.antt =====
-- TiledIdxContainer.hpp, const_iterator: the loop visits the indices of a box in row-major order.
use mathlib.Core.Option
use alpaka.Base.{
  ℕ, zero, suc, ◌<◌, ◌≡◌, refl, sym, ap, ◌∙◌, Bool, true, false, List, [], ◌∷◌, map, Option, none,
  some, arith, length, leb, le→leb, lt→leb_false, add_w, dec_lt, if◌then◌else◌,
}
use alpaka.Vec.{Vec}
use alpaka.Vec.Linear.{InBounds}
use alpaka.Flat.Select.{Fits}
use alpaka.MdForward.{advance}
use alpaka.MdForward as MdForward
use alpaka.MdForward.Order.{Advanced, advance_lem}
use alpaka.Tiled.{ConstIterator, increment_loop, increment, at_end, visit}
use alpaka.Tiled.Store.{IsSelection, write, get_or-write}
use alpaka.Tiled.Advance.{firsts, strides, extents, increment_loop-write, bump-increment}
use alpaka.Tiled.Dims.{Dim, IsBox, num_steps, counts, place, num_steps-lt, test_exact}

Advanced-InBounds : (es cs : Vec) (r : Vec × Bool) → Advanced es cs r → InBounds es r.0
Advanced-InBounds es cs (rest, false) a = a.0
Advanced-InBounds es cs (rest, true) a = a.0

pub box-Fits : (w : ℕ) (ds : List Dim) → IsBox w ds → Fits w (counts ds)
box-Fits w [] b = tt
box-Fits w (d ∷ ds) b = (num_steps-lt w d b.0, box-Fits w ds b.1)

map-Option_cons :
    (f : Vec → Vec) (x : Vec) (o : Option (List Vec))
    → Option.map (map f) (Option.map (◌∷◌ x) o) ≡ Option.map (◌∷◌ (f x)) (Option.map (map f) o)
map-Option_cons f x none = refl
map-Option_cons f x (some xs) = refl

pub place-InBounds_length :
    (ds : List Dim) (ks : Vec) → InBounds (counts ds) ks → length (place ds ks) ≡ length ds
unfolding place
place-InBounds_length [] [] h = refl
place-InBounds_length [] (k ∷ ks) h = absurd h
place-InBounds_length (d ∷ ds) [] h = absurd h
place-InBounds_length (d ∷ ds) (k ∷ ks) h = ap suc (place-InBounds_length ds ks h.1)

module _ (w : ℕ) (d : Dim) (ds : List Dim) (base : Vec) (sel : List ℕ) (box : IsBox w (d ∷ ds))
    (selection : IsSelection (length base) sel) (agree : length sel ≡ suc (length ds)) where
  -- The index after the given numbers of steps, and the iterator that stands there.
  abbrev pub index : Vec → Vec
  index ks = write base sel (place (d ∷ ds) ks)

  abbrev pub stands : Vec → ConstIterator
  stands current = record {
    m_current = current;
    m_stride = strides (d ∷ ds);
    m_extent = extents (d ∷ ds);
    m_first = firsts ds;
  }

  at_end_exact :
      (k : ℕ) (ks : Vec)
      → InBounds (counts ds) ks
      → at_end sel (stands (index (k ∷ ks))) d.extent ≡ MdForward.at_end (counts (d ∷ ds)) (k ∷ ks)
  unfolding at_end MdForward.at_end place
  at_end_exact k ks h =
      ap (leb d.extent) (
        get_or-write base sel (place (d ∷ ds) (k ∷ ks)) 0 selection
          (agree ∙ ap suc (sym (place-InBounds_length ds ks h))) (omega arith))
      ∙ test_exact w d k box.0

  increment_exact :
      (k : ℕ) (ks : Vec)
      → k < num_steps d
      → InBounds (counts ds) ks
      → increment w sel (stands (index (k ∷ ks)))
        ≡ stands (index (MdForward.increment w (counts (d ∷ ds)) (k ∷ ks)))
  unfolding increment place
  increment_exact k ks less h = ap stands (
      ap (λ n. increment_loop w sel (stands (index (k ∷ ks))) n (index (k ∷ ks))) {y = length ds}
        (omega arith)
      ∙ increment_loop-write w sel (stands (index (k ∷ ks))) (length ds) base
          (place (d ∷ ds) (k ∷ ks)) selection (agree ∙ ap suc (sym (place-InBounds_length ds ks h)))
          (omega arith)
      ∙ ap (write base sel) (bump-increment w d ds k ks box less h))

  pub tile_done :
      (fuel : ℕ) (current : Vec)
      → at_end sel (stands current) d.extent ≡ true
      → visit w sel (suc fuel) (stands current) d.extent ≡ some []
  unfolding visit
  tile_done fuel current h = rw (h, visit) refl

  tile_more :
      (fuel : ℕ) (current : Vec)
      → at_end sel (stands current) d.extent ≡ false
      → visit w sel (suc fuel) (stands current) d.extent
        ≡ Option.map (◌∷◌ current) (visit w sel fuel (increment w sel (stands current)) d.extent)
  unfolding visit
  tile_more fuel current h = rw (h, visit) refl

  forward_done :
      (fuel : ℕ) (ks : Vec)
      → MdForward.at_end (counts (d ∷ ds)) ks ≡ true
      → MdForward.visit w (suc fuel) (counts (d ∷ ds)) ks ≡ some []
  unfolding MdForward.visit
  forward_done fuel ks h = rw (h, MdForward.visit) refl

  forward_more :
      (fuel : ℕ) (ks : Vec)
      → MdForward.at_end (counts (d ∷ ds)) ks ≡ false
      → MdForward.visit w (suc fuel) (counts (d ∷ ds)) ks
        ≡ Option.map
            (◌∷◌ ks)
            (MdForward.visit w fuel (counts (d ∷ ds)) (MdForward.increment w (counts (d ∷ ds)) ks))
  unfolding MdForward.visit
  forward_more fuel ks h = rw (h, MdForward.visit) refl

  -- The loop does on the components what MdForwardIter does on the numbers of steps.
  pub visit-MdForward :
      (fuel k : ℕ) (ks : Vec)
      → InBounds (counts ds) ks
      → visit w sel fuel (stands (index (k ∷ ks))) d.extent
        ≡ Option.map (map index) (MdForward.visit w fuel (counts (d ∷ ds)) (k ∷ ks))
  unfolding visit MdForward.visit MdForward.increment MdForward.at_end
  visit-MdForward zero k ks h = refl
  visit-MdForward (suc fuel) k ks h = elim (dec_lt k (num_steps d)) [
    | yes more ↦
        tile_more fuel (index (k ∷ ks)) (at_end_exact k ks h ∙ lt→leb_false (num_steps d) k more)
        ∙ ap (λ it. Option.map (◌∷◌ (index (k ∷ ks))) (visit w sel fuel it d.extent))
            (increment_exact k ks more h)
        ∙ ap (Option.map (◌∷◌ (index (k ∷ ks)))) (
            visit-MdForward fuel (if carry then add_w w k 1 else k) rest (
              Advanced-InBounds (counts ds) ks (advance w (counts ds) ks)
                (advance_lem w (counts ds) ks (box-Fits w ds box.1) h)))
        ∙ sym (
            ap (Option.map (map index))
              (forward_more fuel (k ∷ ks) (lt→leb_false (num_steps d) k more))
            ∙ map-Option_cons index (k ∷ ks) (
                MdForward.visit w fuel (counts (d ∷ ds))
                  (MdForward.increment w (counts (d ∷ ds)) (k ∷ ks))))
    | no done ↦
        tile_done fuel (index (k ∷ ks)) (at_end_exact k ks h ∙ le→leb (num_steps d) k (omega arith))
        ∙ sym (
            ap (Option.map (map index))
              (forward_done fuel (k ∷ ks) (le→leb (num_steps d) k (omega arith))))
  ]
    where
      carry : Bool
      carry = (advance w (counts ds) ks).1

      rest : Vec
      rest = (advance w (counts ds) ks).0
