-- ===== src/Address/Ip.antt =====
-- What `splitIpAddress` returns.
