-- ===== src/Examples/Start.antt =====
-- The start of the kernel (kern/src/init.cc, kern/src/ec.cc) with a concrete task.
use nova_mckernel_lab.Base.{◌≡◌, refl, arith, Bool, true, false, none}
use nova_mckernel_lab.Machine.{Outcome, ok, panic, fault, ◌>>=◌}
use nova_mckernel_lab.Scheduler.{new_scheduler, empty_queue, schedule, enqueue, put_tail}
use nova_mckernel_lab.Kernel.{Kernel, new_domain, root_ec, make_current}
use nova_mckernel_lab.Kalloc.{alloc, alloc_page}
use nova_mckernel_lab.Ptab.{insert_mapping, table_for, remap}
use nova_mckernel_lab.Pd.{set_cap, new_pd}
use nova_mckernel_lab.Boot.{
  Loaded, bootstrap, root_invoke, unmap_low, load_segments, load_segment, map_pages,
}
use nova_mckernel_lab.Boot.Start.{IsFresh}
use nova_mckernel_lab.Examples.{kernel}

-- One module with a segment of one page.
abbrev pub one_task : Loaded
one_task = record {
  multiboot = λ a. record { flags = 8; mods_count = 1; mods_addr = 0x5000 };
  module_at = λ a. record { mod_start = 0x6000; mod_end = 0x9000; cmdline = 0x7000 };
  eh = λ a. record {
    ei_magic = 0x464c_457f;
    ei_data = 1;
    type = 2;
    entry = 0x2000;
    ph_offset = 52;
    ph_count = 1;
  };
  ph = λ a i. record {
    type = 1;
    f_offs = 0x1000;
    v_addr = 0x2000;
    f_size = 0x800;
    m_size = 0x800;
    flags = 5;
  };
}

abbrev pub fresh : Kernel
fresh = record kernel { ecs = λ p. none; pds = λ p. none; sched = new_scheduler; current = 0 }

pub fresh-IsFresh : IsFresh fresh
fresh-IsFresh = (refl, (omega arith, omega arith, omega arith))

abbrev pub started : Outcome Kernel
started = bootstrap 0x40_0000 fresh 0x8000 >>= λ r. root_invoke one_task r.1

abbrev pub kernel_of : Outcome Kernel → Kernel
kernel_of (ok k) = k
kernel_of (panic p) = fresh
kernel_of fault = fresh

abbrev pub goes_on : Outcome Kernel → Bool
goes_on (ok k) = true
goes_on (panic p) = false
goes_on fault = false

goes_on-ok : (o : Outcome Kernel) → goes_on o ≡ true → o ≡ ok (kernel_of o)
goes_on-ok (ok k) h = refl
goes_on-ok (panic p) h = absurd cc
goes_on-ok fault h = absurd cc

started-goes_on : goes_on started ≡ true
unfolding bootstrap unmap_low new_domain alloc root_ec new_pd set_cap make_current root_invoke
    load_segments load_segment map_pages insert_mapping table_for alloc_page new_scheduler
    empty_queue schedule enqueue put_tail remap
started-goes_on = refl

pub starts_well : started ≡ ok (kernel_of started)
starts_well = goes_on-ok started started-goes_on
