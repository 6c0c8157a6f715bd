-- ===== src/Proxy/Accept/Full.antt =====
-- What src/proxy.c does with a connection that is established when the event table is full.
