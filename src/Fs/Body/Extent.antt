-- ===== src/Fs/Body/Extent.antt =====
-- A read of a file stores the bytes of its contents.
use ares_os.Fs.Device.{Device}
use ares_os.Fs.State.{Fs}
