-- ===== src/Devil/Flags/Changer/Stored.antt =====
-- What _UpdateCommandLineFile leaves on the device and in the changer.
use car_multimedia_android_a.Base.{ℕ, inl, inr, ◌≡◌, refl, ap, sym, ◌∙◌, All, List, [], ◌∷◌, String}
use car_multimedia_android_a.Devil.Flags.Text.{Flag, serialize_flags, parse_flags}
use car_multimedia_android_a.Devil.Flags.RoundTrip.{parse_flags-serialize_flags, line_of}
use car_multimedia_android_a.Devil.Flags.Strip.{strip, strip-serialize_flags, strip-newline}
use car_multimedia_android_a.Devil.Flags.Lines.{
  IsStorable, IsStorable-IsParsable, is_one_line-serialize_flags,
}
use car_multimedia_android_a.Devil.Flags.Sets.{has, set_of, SameFlags, SameFlags-All}
use car_multimedia_android_a.Devil.Flags.Changer.{
  Device, IsLawful, IsReadAs, IsIteration, FlagChanger, top, set_top, stored, store,
  get_current_flags, ordered, update_command_line_file,
}

module _ (D : Device) (L : IsLawful D) where
  -- Storable flags that are stored are the flags that are read.
  pub stored-store :
      (p : String) (fs : List Flag) (d : D.State)
      → All IsStorable fs
      → stored D p (store D p (serialize_flags fs) d) ≡ fs
  unfolding stored serialize_flags parse_flags
  stored-store p [] d h = rw (L.exists-remove_path d p)
  stored-store p (f ∷ fs) d h =
      let fine = IsStorable-IsParsable (f ∷ fs) h in
      let text = line_of (serialize_flags (f ∷ fs)) in
      rw L.exists-write_file (
        ap parse_flags
          (stripped (L.read_file-write_file d p text (is_one_line-serialize_flags (f ∷ fs) h)))
        ∙ parse_flags-serialize_flags (f ∷ fs) fine)
    where
      stripped :
          {found : List ℕ}
          → IsReadAs (line_of (serialize_flags (f ∷ fs))) found
          → strip found ≡ line_of (serialize_flags (f ∷ fs))
      stripped (inl e) =
          ap strip e ∙ strip-serialize_flags (f ∷ fs) (IsStorable-IsParsable (f ∷ fs) h)
      stripped (inr e) = ap strip e ∙ strip-newline f fs (IsStorable-IsParsable (f ∷ fs) h)

  module _ (iterate : List Flag → List Flag) (I : IsIteration iterate) where
    SameFlags-ordered : (s : List Flag) → SameFlags s (ordered D iterate s)
    SameFlags-ordered [] f = refl
    SameFlags-ordered (g ∷ s) f = sym (I.has-iterate f (g ∷ s))

    -- The file holds exactly the flags of the top set, which the changer has again.
    pub record IsWritten (c : FlagChanger) (s : List Flag) (rest : List (List Flag))
        (r : List Flag × FlagChanger × D.State) : Type 0 where
      pub members : SameFlags r.0 s
      pub on_device : stored D c.cmdline_path r.2 ≡ r.0
      pub stack : r.1.state_stack ≡ set_of r.0 ∷ rest
      pub path : r.1.cmdline_path ≡ c.cmdline_path

    -- If the top set holds no flag that is empty, ends in a backslash or has a line break, and no
    -- call on the device raises, then after _UpdateCommandLineFile the file holds exactly its flags,
    -- which are what is returned, the top set has them again, and the states below it are as before.
    pub update_command_line_file-IsWritten :
        (c : FlagChanger) (s : List Flag) (rest : List (List Flag)) (d : D.State)
        → c.state_stack ≡ s ∷ rest
        → All IsStorable s
        → IsWritten c s rest (update_command_line_file D iterate c d)
    unfolding update_command_line_file get_current_flags
    update_command_line_file-IsWritten c s rest d e h = record {
      members = λ f. ap (has f) w ∙ sym (SameFlags-ordered s f);
      on_device = refl;
      stack = ap (set_top _) e;
      path = refl;
    }
      where
        w :
            stored D c.cmdline_path
              (store D c.cmdline_path (serialize_flags (ordered D iterate (top c.state_stack))) d)
            ≡ ordered D iterate s
        w =
            ap
              (λ t.
                stored D c.cmdline_path
                  (store D c.cmdline_path (serialize_flags (ordered D iterate (top t))) d))
              e
            ∙ stored-store c.cmdline_path (ordered D iterate s) d
                (SameFlags-All IsStorable s _ (SameFlags-ordered s) h)
