-- ===== src/Boot/Registers.antt =====
-- The offsets of the registers that `diskInit` of kernel/disk.c uses, from VIRTIO0 on, and the bits of
-- the features that it turns off: VIRTIO_MMIO_…, VIRTIO_BLK_F_… and VIRTIO_RING_F_… in kernel/declarations.h.
use r5o.Base.{ℕ}

abbrev pub mmio_magic_value : ℕ
mmio_magic_value = 0x0

abbrev pub mmio_version : ℕ
mmio_version = 0x4

abbrev pub mmio_device_id : ℕ
mmio_device_id = 0x8

abbrev pub mmio_vendor_id : ℕ
mmio_vendor_id = 0xc

abbrev pub mmio_device_features : ℕ
mmio_device_features = 0x10

abbrev pub mmio_driver_features : ℕ
mmio_driver_features = 0x20

abbrev pub mmio_guest_page_size : ℕ
mmio_guest_page_size = 0x28

abbrev pub mmio_queue_sel : ℕ
mmio_queue_sel = 0x30

abbrev pub mmio_queue_num_max : ℕ
mmio_queue_num_max = 0x34

abbrev pub mmio_queue_num : ℕ
mmio_queue_num = 0x38

abbrev pub mmio_queue_pfn : ℕ
mmio_queue_pfn = 0x40

abbrev pub mmio_status : ℕ
mmio_status = 0x70

abbrev pub bit_ro : ℕ
bit_ro = 5

abbrev pub bit_scsi : ℕ
bit_scsi = 7

abbrev pub bit_config_wce : ℕ
bit_config_wce = 11

abbrev pub bit_mq : ℕ
bit_mq = 12

abbrev pub bit_any_layout : ℕ
bit_any_layout = 27

abbrev pub bit_event_idx : ℕ
bit_event_idx = 29

abbrev pub bit_indirect_desc : ℕ
bit_indirect_desc = 28
