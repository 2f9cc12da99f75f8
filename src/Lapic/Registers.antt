-- ===== src/Lapic/Registers.antt =====
-- The registers of the local interrupt controller (kern/include/lapic.h).
use nova_mckernel_lab.Base.{ℕ, ◌/◌, ◌%◌, ◌^◌, ◌<◌, ◌≡◌, refl, ◌↔◌, arith}
use nova_mckernel_lab.Lapic.{
  DeliveryMode, dlv_fixed, dlv_lowest_prio, dlv_smi, dlv_remote_read, dlv_nmi, dlv_init, dlv_sipi,
  dlv_extint, Mask, unmasked, masked, delivery, lvt_value,
}

delivery-small : (d : DeliveryMode) → delivery d < 8
unfolding delivery
delivery-small dlv_fixed = omega arith
delivery-small dlv_lowest_prio = omega arith
delivery-small dlv_smi = omega arith
delivery-small dlv_remote_read = omega arith
delivery-small dlv_nmi = omega arith
delivery-small dlv_init = omega arith
delivery-small dlv_sipi = omega arith
delivery-small dlv_extint = omega arith

-- What `set_lvt` writes holds a vector of a byte in the lowest eight bits, the delivery mode in the next
-- three, and the mask in bit 16.
pub lvt_value-fields :
    (vector : ℕ) (dlv : DeliveryMode) (msk : Mask)
    → vector < 2 ^ 8
    → let w = lvt_value vector dlv msk in
      (w % 2 ^ 8 ≡ vector)
      × (w / 2 ^ 8 % 8 ≡ delivery dlv)
      × ((w / 2 ^ 16 % 2 ≡ 1) ↔ (msk ≡ masked))
unfolding lvt_value
lvt_value-fields vector dlv unmasked h = (
  omega (arith, delivery-small dlv),
  omega (arith, delivery-small dlv),
  ((λ e. absurd (omega (arith, delivery-small dlv))), λ e. cc),
)
lvt_value-fields vector dlv masked h = (
  omega (arith, delivery-small dlv),
  omega (arith, delivery-small dlv),
  ((λ e. refl), λ e. omega (arith, delivery-small dlv)),
)
