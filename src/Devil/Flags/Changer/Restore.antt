-- ===== src/Devil/Flags/Changer/Restore.antt =====
-- PushFlags and Restore nest: as many calls of Restore as there were calls of PushFlags bring
-- the first flags back.
use car_multimedia_android_a.Base.{
  ℕ, zero, suc, ◌≡◌, refl, ap, sym, subst, ◌∙◌, All, true, ◌&&◌, not, Option, none, some, List, [],
  ◌∷◌, String, arith, length, inl, inr, Bool-cases,
}
use car_multimedia_android_a.Devil.Flags.Text.{Flag}
use car_multimedia_android_a.Devil.Flags.Lines.{IsStorable}
use car_multimedia_android_a.Devil.Flags.Sets.{
  has, set_of, update, difference_update, has-update, has-difference_update, SameFlags,
  SameFlags-All, SameFlags-set_of, All-has, has-All,
}
use car_multimedia_android_a.Devil.Flags.Changer.{
  Device, IsLawful, IsIteration, FlagChanger, top, stored, push_flags, replace_flags, restore,
}
use car_multimedia_android_a.Devil.Flags.Changer.Stored.{
  IsWritten, update_command_line_file-IsWritten,
}

-- The arguments of a call of PushFlags.
pub record Change : Type 0 where
  pub add : List Flag
  pub remove : List Flag

module _ (D : Device) (iterate : List Flag → List Flag) where
  abbrev pub Run : Type 0
  Run = FlagChanger × D.State

  abbrev pub push : Change → FlagChanger → D.State → Run
  push change c d = let (_, c', d') = push_flags D iterate change.add change.remove c d in (c', d')

  -- A row of calls of PushFlags.
  unfoldable pub push_all : List Change → FlagChanger → D.State → Run
  push_all [] c d = (c, d)
  push_all (change ∷ changes) c d = let (c', d') = push change c d in push_all changes c' d'

  abbrev pub restore_once : Run → Option Run
  restore_once (c, d) = elim (restore D iterate c d) [
    | none ↦ none
    | some (_, c', d') ↦ some (c', d')
  ]

  -- A row of calls of Restore; `none` is a failed assertion.
  unfoldable pub restore_all : ℕ → Run → Option Run
  restore_all zero r = some r
  restore_all (suc n) r = elim (restore_all n r) [ none ↦ none | some r' ↦ restore_once r' ]

  -- The device and the top of the stack hold the flags of `s`, over the states `rest`.
  pub record Holds (p : String) (s : List Flag) (rest : List (List Flag)) (r : Run) : Type 0 where
    pub path : r.0.cmdline_path ≡ p
    pub current : List Flag
    pub stack : r.0.state_stack ≡ current ∷ rest
    pub members : SameFlags current s
    pub on_device : SameFlags (stored D p r.1) s

  abbrev pub HoldsSome : String → List Flag → List (List Flag) → Option Run → Type 0
  HoldsSome p s rest none = ⊥
  HoldsSome p s rest (some r) = Holds p s rest r

  module _ (L : IsLawful D) (I : IsIteration iterate) where
    IsWritten-Holds :
        (c : FlagChanger) (s : List Flag) (rest : List (List Flag))
        (r : List Flag × FlagChanger × D.State)
        → IsWritten D L iterate I c s rest r
        → Holds c.cmdline_path s rest (r.1, r.2)
    IsWritten-Holds c s rest r w = record {
      path = w.path;
      current = set_of r.0;
      stack = w.stack;
      members = λ f. SameFlags-set_of r.0 f ∙ w.members f;
      on_device = λ f. ap (has f) w.on_device ∙ w.members f;
    }

    push-IsStorable :
        (s : List Flag) (change : Change)
        → All IsStorable s
        → All IsStorable change.add
        → All IsStorable (set_of (iterate (difference_update (update s change.add) change.remove)))
    push-IsStorable s change hs ha =
        let new = difference_update (update s change.add) change.remove in
        All-has IsStorable _ (λ f m. member f (
          sym (has-difference_update f (update s change.add) change.remove)
          ∙ sym (I.has-iterate f new)
          ∙ sym (SameFlags-set_of (iterate new) f)
          ∙ m))
      where
        member :
            (f : Flag)
            → (has f (update s change.add) && not (has f change.remove)) ≡ true
            → IsStorable f
        member f m = elim (Bool-cases (has f s)) [
          | inl old ↦ has-All IsStorable f s hs old
          | inr new ↦ has-All IsStorable f change.add ha (ground (arith, has-update f s change.add))
        ]

    push-Holds :
        (change : Change) (c : FlagChanger) (s : List Flag) (rest : List (List Flag)) (d : D.State)
        → c.state_stack ≡ s ∷ rest
        → All IsStorable s
        → All IsStorable change.add
        → (new : List Flag) × All IsStorable new
          × Holds c.cmdline_path new c.state_stack (push change c d)
    unfolding push_flags replace_flags
    push-Holds change c s rest d e hs ha =
        let t = top c.state_stack in
        let new = set_of (iterate (difference_update (update t change.add) change.remove)) in
        let c1 : FlagChanger = record c { state_stack = new ∷ c.state_stack } in
        let fine : All IsStorable new =
          push-IsStorable t change (subst (λ x. All IsStorable (top x)) (sym e) hs) ha in
        (
          new,
          fine,
          IsWritten-Holds c1 new c.state_stack _
              (update_command_line_file-IsWritten D L iterate I c1 new c.state_stack d refl fine),
        )

    restore_once-Holds :
        (x s : List Flag) (rest : List (List Flag)) (r : Run)
        → r.0.state_stack ≡ x ∷ s ∷ rest
        → All IsStorable s
        → HoldsSome r.0.cmdline_path s rest (restore_once r)
    unfolding restore
    restore_once-Holds x s rest (c, d) e hs =
        rw (e, restore)
          (IsWritten-Holds (record c { state_stack = s ∷ rest }) s rest _
            (update_command_line_file-IsWritten D L iterate I (record c { state_stack = s ∷ rest })
              s rest d refl hs))

    restore_step-Holds :
        (p : String) (x s : List Flag) (rest : List (List Flag)) (o : Option Run)
        → HoldsSome p x (s ∷ rest) o
        → All IsStorable s
        → HoldsSome p s rest (elim o [ none ↦ none | some r ↦ restore_once r ])
    restore_step-Holds p x s rest none h hs = h
    restore_step-Holds p x s rest (some r) h hs =
        subst (λ q. HoldsSome q s rest (restore_once r)) h.path
          (restore_once-Holds h.current s rest r h.stack hs)

    -- If no call on the device raises, then after any row of calls of PushFlags and as many calls of
    -- Restore no assertion has failed, the file again holds exactly the flags that it held, and the
    -- stack its states, if those flags and the added ones are not empty, do not end in a backslash
    -- and have no line break.
    pub restore_all-push_all :
        (changes : List Change) (c : FlagChanger) (s : List Flag) (rest : List (List Flag))
        (d : D.State)
        → c.state_stack ≡ s ∷ rest
        → All IsStorable s
        → SameFlags (stored D c.cmdline_path d) s
        → All (λ change. All IsStorable change.add) changes
        → HoldsSome c.cmdline_path s rest (restore_all (length changes) (push_all changes c d))
    unfolding restore_all push_all
    restore_all-push_all [] c s rest d e hs here ha = record {
      path = refl;
      current = s;
      stack = e;
      members = λ f. refl;
      on_device = here;
    }
    restore_all-push_all (change ∷ changes) c s rest d e hs here ha =
        let (new, fine, h) = push-Holds change c s rest d e hs ha.0 in
        let (c', d') = push change c d in
        let o = restore_all (length changes) (push_all changes c' d') in
        let there : SameFlags (stored D c.cmdline_path d') h.current =
          λ f. h.on_device f ∙ sym (h.members f) in
        let ih : HoldsSome c'.cmdline_path h.current c.state_stack o =
          restore_all-push_all changes c' h.current c.state_stack d' h.stack
            (SameFlags-All IsStorable new h.current (λ f. sym (h.members f)) fine)
            (subst (λ p. SameFlags (stored D p d') h.current) (sym h.path) there) ha.1 in
        restore_step-Holds c.cmdline_path h.current s rest o
          (subst (λ p. HoldsSome p h.current (s ∷ rest) o) h.path
            (subst (λ st. HoldsSome c'.cmdline_path h.current st o) e ih))
          hs
