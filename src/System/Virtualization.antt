-- ===== src/System/Virtualization.antt =====
-- `system_detect_virtualization`.
use serv_mark.Base.{ℕ, ◌-◌, ◌||◌, Option, none, some, if◌then◌else◌, Text, codes, contains, take}
use serv_mark.System.{Files, sys_vendor, product_name, system_read_proc_str}

-- The comparisons with the vendor, in order.
unfoldable pub vendor_hypervisor : Text → Option Text
vendor_hypervisor vendor =
    if contains vendor (codes "QEMU") || contains vendor (codes "KVM")
    then some (codes "kvm")
    else if contains vendor (codes "VMware")
    then some (codes "vmware")
    else if contains vendor (codes "Microsoft Corporation")
    then some (codes "hyper-v")
    else if contains vendor (codes "Xen")
    then some (codes "xen")
    else if contains vendor (codes "Amazon EC2")
    then some (codes "aws-nitro")
    else if contains vendor (codes "Google")
    then some (codes "gce")
    else if contains vendor (codes "Oracle")
    then some (codes "oci")
    else if contains vendor (codes "DigitalOcean")
    then some (codes "digitalocean")
    else if contains vendor (codes "Alibaba Cloud")
    then some (codes "alicloud")
    else none

unfoldable pub product_hypervisor : Text → Option Text
product_hypervisor product =
    if contains product (codes "KVM") || contains product (codes "QEMU")
    then some (codes "kvm")
    else if contains product (codes "HVM domU")
    then some (codes "aws-nitro")
    else none

abbrev pub by_vendor : Option Text → Option Text
by_vendor none = none
by_vendor (some vendor) = vendor_hypervisor vendor

abbrev pub by_product : Option Text → Option Text
by_product none = none
by_product (some product) = product_hypervisor product

abbrev pub from_product : Option Text → Text × ℕ
from_product none = (codes "bare-metal", 0)
from_product (some name) = (name, 1)

abbrev pub from_vendor : Option Text → Option Text → Text × ℕ
from_vendor none product = from_product product
from_vendor (some name) product = (name, 2)

-- `hypervisor`, in a buffer of `len` characters, and `*confidence`.
unfoldable pub system_detect_virtualization : Files → ℕ → Text × ℕ
system_detect_virtualization files len =
    let (name, confidence) =
      from_vendor (by_vendor (system_read_proc_str files sys_vendor 64))
        (by_product (system_read_proc_str files product_name 128)) in
    (take (len - 1) name, confidence)
