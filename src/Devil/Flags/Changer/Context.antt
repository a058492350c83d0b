-- ===== src/Devil/Flags/Changer/Context.antt =====
-- `CustomCommandLineFlags`: whatever the body of the `with` statement does, it starts under the
-- given flags, and what was there before comes back.
use car_multimedia_android_a.Base.{
  ◌≡◌, refl, ap, sym, subst, ◌∙◌, All, Bool, true, false, ◌&&◌, ◌||◌, not, some, List, [], ◌∷◌,
  String, inl, inr, Bool-cases, leb,
}
use car_multimedia_android_a.Devil.Flags.Text.{Flag}
use car_multimedia_android_a.Devil.Flags.Lines.{IsStorable}
use car_multimedia_android_a.Devil.Flags.Sets.{
  has, set_of, SameFlags, SameFlags-All, SameFlags-set_of,
}
use car_multimedia_android_a.Devil.Flags.Changer.{
  Device, IsLawful, IsIteration, FlagChanger, stored, update_command_line_file, replace_flags,
  restore, join_path, has_separator, new_flag_changer, with_changer, custom_command_line_flags,
}
use car_multimedia_android_a.Devil.Flags.Changer.Stored.{
  IsWritten, update_command_line_file-IsWritten,
}

module _ (D : Device) (L : IsLawful D) (iterate : List Flag → List Flag)
    (I : IsIteration iterate) where
  restore-stack :
      (c : FlagChanger) (x s : List Flag) (d : D.State)
      → c.state_stack ≡ x ∷ s ∷ []
      → restore D iterate c d
        ≡ some (update_command_line_file D iterate (record c { state_stack = s ∷ [] }) d)
  unfolding restore
  restore-stack c x s d e = rw (e, restore)

  fine_set : (s : List Flag) → All IsStorable s → All IsStorable (set_of s)
  fine_set s h = SameFlags-All IsStorable s (set_of s) (λ f. sym (SameFlags-set_of s f)) h

  module _ (name : String) (flags : List Flag) (body : D.State → Bool × D.State) where
    abbrev pub path : String
    path = join_path "/data/local/tmp" name

    -- What the `with` statement promises, from the device that it starts on.
    pub record Brackets (d : D.State) (r : Bool × D.State) : Type 0 where
      pub ran : D.State
      pub during : SameFlags (stored D path ran) flags
      pub result : r.0 ≡ (body ran).0
      pub after : SameFlags (stored D path r.1) (stored D path d)

    abbrev changer : D.State → FlagChanger
    changer d = record { cmdline_path = path; state_stack = set_of (stored D path d) ∷ [] }

    new_flag_changer-plain :
        (d : D.State)
        → has_separator name ≡ false
        → D.path_exists d (join_path "/data/local" name) ≡ false
        → new_flag_changer D name d ≡ some (changer d, d)
    unfolding new_flag_changer
    new_flag_changer-plain d plain_name gone = rw (gone, plain_name)

    replace_flags-IsWritten :
        (d : D.State)
        → All IsStorable flags
        → IsWritten D L iterate I
            (changer d)
            (set_of flags)
            (set_of (stored D path d) ∷ [])
            (replace_flags D iterate flags (changer d) d)
    unfolding replace_flags
    replace_flags-IsWritten d fine =
        let c1 : FlagChanger = record (changer d) {
          state_stack = set_of flags ∷ (changer d).state_stack;
        } in
        let w =
          update_command_line_file-IsWritten D L iterate I c1 (set_of flags)
            (set_of (stored D path d) ∷ []) d refl (fine_set flags fine) in
        record { members = w.members; on_device = w.on_device; stack = w.stack; path = w.path }

    with_changer-Brackets :
        (d : D.State)
        → has_separator name ≡ false
        → D.path_exists d (join_path "/data/local" name) ≡ false
        → All IsStorable flags
        → All IsStorable (stored D path d)
        → Brackets d (with_changer D iterate name flags body d)
    unfolding with_changer
    with_changer-Brackets d plain_name gone fine before =
        let old = set_of (stored D path d) in
        let w = replace_flags-IsWritten d fine in
        let r1 = replace_flags D iterate flags (changer d) d in
        let c2 : FlagChanger = record (r1.1) { state_stack = old ∷ [] } in
        let (done, d3) = body r1.2 in
        let w2 =
          update_command_line_file-IsWritten D L iterate I c2 old [] d3 refl (fine_set _ before) in
        rw (new_flag_changer-plain d plain_name gone, with_changer)
          (rw (restore-stack r1.1 _ old d3 w.stack) (record {
            ran = r1.2;
            during = λ f. ap (has f) w.on_device ∙ w.members f ∙ SameFlags-set_of flags f;
            result = refl;
            after = λ f.
                ap (λ p. has f (stored D p (update_command_line_file D iterate c2 d3).2))
                  (sym w.path)
                ∙ ap (has f) w2.on_device
                ∙ w2.members f
                ∙ SameFlags-set_of (stored D path d) f;
          }))

    stored-set_enforce :
        (d : D.State) (on : Bool) → stored D path (D.set_enforce d on) ≡ stored D path d
    unfolding stored
    stored-set_enforce d on = rw (L.exists-set_enforce, L.read_file-set_enforce)

    -- If the given flags and those in the file are not empty, do not end in a backslash and have no
    -- line break, the file name has no separator, there is no file at the legacy place, and no call
    -- that the changer makes on the device raises, then the result is that of the body on a device
    -- whose file holds the given flags. Whatever the body returns or raises and does to the device,
    -- the file then holds the flags that it held before, and SELinux enforces again if it had to be
    -- set to permissive.
    pub custom_command_line_flags-Brackets :
        (d : D.State)
        → has_separator name ≡ false
        → D.path_exists d (join_path "/data/local" name) ≡ false
        → All IsStorable flags
        → All IsStorable (stored D path d)
        → let r = custom_command_line_flags D iterate name flags body d in
          Brackets d r
          × ((not (leb 24 (D.build_version_sdk d) && D.get_enforce d) || D.get_enforce r.1) ≡ true)
    unfolding custom_command_line_flags
    custom_command_line_flags-Brackets d plain_name gone fine before =
        elim (Bool-cases (leb 24 (D.build_version_sdk d) && D.get_enforce d)) [
          | inl needs ↦ rw needs (
              let d1 = D.set_enforce d false in
              let b =
                with_changer-Brackets d1 plain_name (L.exists-set_enforce d false _ ∙ gone) fine
                  (subst (All IsStorable) (sym (stored-set_enforce d false)) before) in
              let d2 = (with_changer D iterate name flags body d1).1 in
              (
                record {
                  ran = b.ran;
                  during = b.during;
                  result = b.result;
                  after = λ f.
                      ap (has f) (stored-set_enforce d2 true)
                      ∙ b.after f
                      ∙ ap (has f) (stored-set_enforce d false);
                },
                L.get_enforce-set_enforce d2 true,
              ))
          | inr not_needed ↦
              rw not_needed (with_changer-Brackets d plain_name gone fine before, refl)
        ]
