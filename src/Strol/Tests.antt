-- ===== src/Strol/Tests.antt =====
-- Runs of `strtoul`, and its theorem at one.
use xnu_uboot_arm.Base.{◌≡◌, refl, drop, length, codes}
use xnu_uboot_arm.Strol.{
  skip_spaces, take_sign, take_base, digit_of, exceeds, digits, finish, strtoul,
}
use xnu_uboot_arm.Strol.Value.{leading, read_number, strtoul-read_number}

hexadecimal : strtoul (codes "  0x20000000,") 0 ≡ (0x2000_0000, 12)
unfolding strtoul skip_spaces take_sign take_base digit_of exceeds digits finish
hexadecimal = refl

negative : strtoul (codes "-1") 10 ≡ (0xFFFF_FFFF, 2)
unfolding strtoul skip_spaces take_sign take_base digit_of exceeds digits finish
negative = refl

too_large : strtoul (codes "4294967296 ") 10 ≡ (0xFFFF_FFFF, 10)
unfolding strtoul skip_spaces take_sign take_base digit_of exceeds digits finish
too_large = refl

no_number : strtoul (codes "last") 10 ≡ (0, 0)
unfolding strtoul skip_spaces take_sign take_base digit_of exceeds digits finish
no_number = refl

strtoul-read_number_example :
    let signed = take_sign (skip_spaces (codes " -0b101")) in
    let used = take_base 0 signed.1 in
    let ds = leading used.0 used.1 in
    strtoul (codes " -0b101") 0
    ≡ read_number used.0 (codes " -0b101") signed.0 ds (drop (length ds) used.1)
strtoul-read_number_example = strtoul-read_number (codes " -0b101") 0
